-- ===== src/Router/SnekHop.antt =====
-- src/router.rs, `next_snek_hop`: greedy routing by key.
pub mod Leads
pub mod Progress
pub mod Closest
pub mod Direct
pub mod Weighs
pub mod Chosen
use rust_pinecone.Prelude.{
  Bool, not, ◌&&◌, ◌||◌, List, [], ◌∷◌, Option, none, some, ltb, ◌==◌, if◌then◌else◌, Reply, ok,
  panic, bind_reply,
}
use rust_pinecone.Prelude.Maps.{HashMap}
use rust_pinecone.Tree.{PublicKey, RootAnnouncementSignature}
use rust_pinecone.Frames.{TreeAnnouncement}
use rust_pinecone.Snek.{SnekPathIndex, SnekPath, valid}
use rust_pinecone.Router.State.{Router, World}
use rust_pinecone.Router.Ports.{peers, get_peer_on_port}
use rust_pinecone.Router.Announce.{current_announcement, current_root}

-- A < B < C, without wrapping.
unfoldable pub dht_ordered : PublicKey → PublicKey → PublicKey → Bool
dht_ordered a b c = ltb a b && ltb b c

-- The best candidate so far.
pub record BestKey : Type 0 where
  pub key : PublicKey
  pub peer : Option PublicKey

module _ (destination_key : PublicKey) (bootstrap : Bool) where
  -- Both tests on one candidate: it is the destination, or it lies between that and the best key.
  unfoldable pub improves : PublicKey → PublicKey → Bool
  improves key best =
      (not bootstrap && ((key == destination_key) && not (best == destination_key)))
      || dht_ordered destination_key key best

  unfoldable pub consider : PublicKey → PublicKey → BestKey → BestKey
  consider key peer best =
      if improves key best.key then record { key = key; peer = some peer } else best

  unfoldable pub consider_all : List RootAnnouncementSignature → PublicKey → BestKey → BestKey
  consider_all [] peer best = best
  consider_all (s ∷ rest) peer best =
      consider_all rest peer (consider s.signing_public_key peer best)

  unfoldable pub consider_announcements : HashMap PublicKey TreeAnnouncement → BestKey → BestKey
  consider_announcements [] best = best
  consider_announcements ((peer, a) ∷ rest) best =
      consider_announcements rest (consider_all a.signatures peer best)

  -- A best key that is a direct peer's is reached over that peer.
  unfoldable pub prefer_peers : List PublicKey → BestKey → BestKey
  prefer_peers [] best = best
  prefer_peers (p ∷ rest) best =
      prefer_peers rest (if best.key == p then record { key = p; peer = some p } else best)

  module _ (w : World) (r : Router) where
    -- An entry of the routing table. The port must have a peer: the code unwraps it.
    unfoldable pub consider_entry : SnekPathIndex → SnekPath → BestKey → Reply BestKey
    consider_entry key entry best = bind_reply (valid w.now entry) λ fresh.
        if not fresh || (entry.source == 0)
        then ok best
        else if not bootstrap && not entry.active
        then ok best
        else if improves key.public_key best.key
        then elim (get_peer_on_port r entry.source) [
          | none ↦ panic
          | some p ↦ ok (record { key = key.public_key; peer = some p })
        ]
        else ok best

    unfoldable pub consider_paths : HashMap SnekPathIndex SnekPath → BestKey → Reply BestKey
    consider_paths [] best = ok best
    consider_paths ((key, entry) ∷ rest) best =
        bind_reply (consider_entry key entry best) (consider_paths rest)

    -- A bootstrap for one's own key starts towards the root.
    unfoldable pub start_upwards : BestKey → BestKey
    start_upwards best =
        let root_key = (current_root w r).public_key in
        let up : BestKey = record { key = root_key; peer = some r.parent } in
        let first = if bootstrap && (best.key == destination_key) then up else best in
        if dht_ordered first.key destination_key root_key then up else first

    -- The ancestors, unless this router is the root.
    unfoldable pub consider_ancestors : BestKey → BestKey
    consider_ancestors best =
        if r.parent == r.public_key
        then best
        else consider_all (current_announcement w r).signatures r.parent (start_upwards best)

    unfoldable pub next_snek_hop : Bool → Reply (Option PublicKey)
    next_snek_hop traffic =
        let own : BestKey = record {
          key = r.public_key;
          peer = if traffic then none else some r.public_key;
        } in
        if not bootstrap && (r.public_key == destination_key)
        then ok (some r.public_key)
        else bind_reply
            (consider_paths r.paths (
              prefer_peers (peers r)
                (consider_announcements r.announcements (consider_ancestors own))))
            λ best. ok best.peer
