-- ===== src/Router/TreeHop.antt =====
-- src/router.rs, `next_tree_hop`: routing by coordinates in the spanning tree.
pub mod Progress
pub mod Total
pub mod Closest
use rust_pinecone.Prelude.{
  ℕ, ◌≡◌, Bool, true, false, not, ◌&&◌, List, [], ◌∷◌, Option, none, some, ltb, ◌==◌, if◌then◌else◌,
  Reply, ok, err, panic, M, bind_reply,
}
use rust_pinecone.Tree.{PublicKey, SequenceNumber, Root, root_eq}
use rust_pinecone.Coordinates.{Coordinates, distance_to, coordinates_eq}
use rust_pinecone.Frames.{TreeAnnouncement}
use rust_pinecone.Frames.Announcement.{peer_coords}
use rust_pinecone.Router.State.{Router, World, sequence_max}
use rust_pinecone.Router.Ports.{peers}
use rust_pinecone.Router.Announce.{announcement_of, current_root, coordinates}

-- The variables of the loop.
pub record BestHop : Type 0 where
  pub peer : Option PublicKey
  pub distance : ℕ
  pub order : SequenceNumber

abbrev pub is_some {ℓ} : {A : Type ℓ} → Option A → Bool
is_some none = false
is_some (some a) = true

unfoldable pub is_better_next_tree_hop_candidate :
    ℕ → ℕ → SequenceNumber → SequenceNumber → Bool → Bool
is_better_next_tree_hop_candidate peer_distance best_distance peer_order best_order
      candidate_exists =
    if ltb peer_distance best_distance
    then true
    else if ltb best_distance peer_distance
    then false
    else candidate_exists && ltb peer_order best_order

-- The body of the loop for a peer with an announcement under the current root, at its place.
unfoldable pub pick_hop :
    Coordinates → PublicKey → TreeAnnouncement → BestHop → Coordinates → BestHop
pick_hop dest peer a best place =
    if is_better_next_tree_hop_candidate (distance_to place dest) best.distance a.receive_order
      best.order (is_some best.peer)
    then record { peer = some peer; distance = distance_to place dest; order = a.receive_order }
    else best

unfoldable pub weigh_hop : Coordinates → PublicKey → TreeAnnouncement → BestHop → Reply BestHop
weigh_hop dest peer a best =
    bind_reply (peer_coords a) λ place. ok (pick_hop dest peer a best place)

module _ (w : World) (r : Router) (dest : Coordinates) (from : PublicKey) where
  unfoldable pub hop_step : PublicKey → BestHop → Reply BestHop
  hop_step peer best = if peer == from then ok best else elim (announcement_of r peer) [
    | none ↦ ok best
    | some a ↦ if root_eq (current_root w r) a.root then weigh_hop dest peer a best else ok best
  ]

  unfoldable pub hop_loop : List PublicKey → BestHop → Reply BestHop
  hop_loop [] best = ok best
  hop_loop (peer ∷ rest) best = bind_reply (hop_step peer best) (hop_loop rest)

  -- The variables before the loop.
  abbrev pub first_hop : BestHop
  first_hop = record {
    peer = none;
    distance = distance_to dest (coordinates w r);
    order = sequence_max;
  }

  -- `frame.destination_coordinates()` is the argument `dest`.
  unfoldable pub next_tree_hop : Reply (Option PublicKey)
  next_tree_hop =
      let our_distance = distance_to dest (coordinates w r) in
      if coordinates_eq dest (coordinates w r)
      then ok (some r.public_key)
      else if our_distance == 0
      then ok (some r.public_key)
      else bind_reply (hop_loop (peers r) first_hop) λ best. ok best.peer
