-- ===== src/Network.antt =====
-- A network of routers of src/router.rs, as far as `handle_frame` passes a tree packet on between them.
pub mod Settled
pub mod Delivery
use rust_pinecone.Prelude.{
  ℕ, zero, suc, ◌≡◌, ◌≢◌, Bool, true, List, [], ◌∷◌, Option, none, some, Reply, ok, err, panic,
}
use rust_pinecone.Tree.{PublicKey}
use rust_pinecone.Frames.{Frame}
use rust_pinecone.Router.State.{Router, World}
use rust_pinecone.Router.HandleFrame.{handle_frame}

-- What becomes of a frame: the client of a node takes what came there, the node drops it, or
-- `on_the_way`, the fuel has run out.
pub data Fate : Type 0 where
  arrived : PublicKey → Frame → Fate
  dropped : PublicKey → Fate
  on_the_way : Fate

-- What a router that held nothing back has put out: a frame to a peer, or to its client.
pub data Output : Type 0 where
  onward : PublicKey → Frame → Output
  to_client : Frame → Output
  nothing : Output

unfoldable pub output : Router → Output
output r = elim r.sent [
  | (peer, frame) ∷ rest ↦ onward peer frame
  | [] ↦ elim r.delivered [ frame ∷ rest ↦ to_client frame | [] ↦ nothing ]
]

module _ (w : World) (net : PublicKey → Router) where
  -- The router of a node handles the frame that came from another.
  abbrev pub handled : Frame → PublicKey → PublicKey → Router
  handled frame node from = (handle_frame w frame from (net node)).1

  abbrev continue_travel : PublicKey → (Frame → PublicKey → Fate) → Output → Fate
  continue_travel node later (onward peer frame) = later frame peer
  continue_travel node later (to_client frame) = arrived node frame
  continue_travel node later nothing = dropped node

  -- A frame at a node, from another: the frame that this node's router sends goes on to the peer
  -- that it is sent to. There is fuel for so many nodes.
  unfoldable pub travel : ℕ → Frame → PublicKey → PublicKey → Fate
  travel zero frame node from = on_the_way
  travel (suc fuel) frame node from =
      continue_travel node (λ sent peer. travel fuel sent peer node)
        (output (handled frame node from))
