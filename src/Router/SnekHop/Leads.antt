-- ===== src/Router/SnekHop/Leads.antt =====
-- `next_snek_hop` of src/router.rs: what a router knows of where a hop leads.
use rust_pinecone.Prelude.{
  ◌≢◌, arith, Bool, true, false, not, ◌&&◌, ◌||◌, ◌==◌, ==_iff, ok, ◌<◌, ◌≡◌, ◌⊎◌, some,
}
use mathlib.Core.List.{Memᴰ}
use rust_pinecone.Tree.{PublicKey, RootAnnouncementSignature}
use rust_pinecone.Frames.{TreeAnnouncement}
use rust_pinecone.Snek.{SnekPathIndex, SnekPath, valid}
use rust_pinecone.Router.State.{Router, World}
use rust_pinecone.Router.Ports.{peers, get_peer_on_port}
use rust_pinecone.Router.Announce.{current_announcement, current_root}

-- The key is this one, the destination's, or one strictly between the two.
abbrev pub Nearer : PublicKey → PublicKey → PublicKey → Type 0
Nearer dest from key = (key ≡ from) ⊎ ((key ≡ dest) ⊎ ((dest < key) × (key < from)))

module _ (w : World) (r : Router) (bootstrap : Bool) where
  -- An entry that routing uses: it is not expired, does not start here, and is active or the frame
  -- a bootstrap.
  abbrev pub Fit : SnekPath → Type 0
  Fit path =
      (valid w.now path ≡ ok true) × (path.source ≢ 0) × ((bootstrap ≡ true) ⊎ (path.active ≡ true))

  pub tests-Fit :
      (path : SnekPath) (fresh : Bool)
      → valid w.now path ≡ ok fresh
      → (not fresh || (path.source == 0)) ≡ false
      → (not bootstrap && not path.active) ≡ false
      → Fit path
  tests-Fit path false e fit ready = absurd (cc fit)
  tests-Fit path true e fit ready = (e, (λ z. cc ((==_iff path.source 0).1 z, fit)), ground arith)

  -- How a router knows that a hop leads to the node with a key.
  pub data Leads : PublicKey → PublicKey → Type 0 where
    up_to_root : Leads r.parent (current_root w r).public_key
    up_to_ancestor :
        (s : RootAnnouncementSignature)
        → Memᴰ s (current_announcement w r).signatures
        → Leads r.parent s.signing_public_key
    over_announcer :
        (p : PublicKey) (a : TreeAnnouncement) (s : RootAnnouncementSignature)
        → Memᴰ (p, a) r.announcements
        → Memᴰ s a.signatures
        → Leads p s.signing_public_key
    to_peer : (p : PublicKey) → Memᴰ p (peers r) → Leads p p
    over_path :
        (i : SnekPathIndex) (path : SnekPath) (p : PublicKey)
        → Memᴰ (i, path) r.paths
        → Fit path
        → get_peer_on_port r path.source ≡ some p
        → Leads p i.public_key
