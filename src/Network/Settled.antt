-- ===== src/Network/Settled.antt =====
-- Networks of routers of src/router.rs whose spanning tree has settled, and what one router puts out.
use mathlib.Core.List.{Memᴰ}
use rust_pinecone.Prelude.{◌<◌, ◌≡◌, ◌≢◌, refl, true, [], none, some, ==_self, ==_ne, ok}
use rust_pinecone.Prelude.Maps.{nat_eq, get}
use rust_pinecone.Tree.{PublicKey}
use rust_pinecone.Coordinates.{Coordinates, distance_to}
use rust_pinecone.Coordinates.Metric.{coordinates_eq_iff}
use rust_pinecone.Frames.{TreeAnnouncement, TreePacket, Frame, tree_routed}
use rust_pinecone.Frames.Announcement.{peer_coords}
use rust_pinecone.Router.State.{Router, World, send, send_to_local}
use rust_pinecone.Router.Ports.{peers}
use rust_pinecone.Router.Announce.{announcement_of, current_root, coordinates}
use rust_pinecone.Router.HandleAnnouncement.Signed.{Signed}
use rust_pinecone.Router.TreeHop.{next_tree_hop}
use rust_pinecone.Router.HandleFrame.{handle_frame, route}
use rust_pinecone.Network.{output, onward, to_client, nothing}

-- The tree has settled: what a router knows of a peer under its root is where that peer is, and such
-- peers are connected. Nothing waits to be sent, and sends succeed.
pub record IsSettled (w : World) (net : PublicKey → Router) : Type 0 where
  pub named : (k : PublicKey) → (net k).public_key ≡ k
  pub unsent : (k : PublicKey) → (net k).sent ≡ []
  pub undelivered : (k : PublicKey) → (net k).delivered ≡ []
  pub signed : (k : PublicKey) → Signed (net k)
  pub open_client : w.client_open ≡ true
  pub sends : (to : PublicKey) (frame : Frame) → w.link to frame ≡ none
  pub linked :
      (k p : PublicKey) (a : TreeAnnouncement)
      → announcement_of (net k) p ≡ some a
      → get (net k).upload_connections p ≡ some tt
  pub agrees :
      (k p : PublicKey) (a : TreeAnnouncement)
      → announcement_of (net k) p ≡ some a
      → a.root ≡ current_root w (net k)
      → peer_coords a ≡ ok (coordinates w (net p))

-- A router knows of a peer that is closer.
abbrev pub KnowsCloser : World → (PublicKey → Router) → Coordinates → PublicKey → Type 0
KnowsCloser w net dest k =
    (p : PublicKey) × (a : TreeAnnouncement) × Memᴰ p (peers (net k))
    × (announcement_of (net k) p ≡ some a)
    × (a.root ≡ current_root w (net k))
    × (distance_to dest (coordinates w (net p)) < distance_to dest (coordinates w (net k)))

-- So does every one that is elsewhere.
abbrev pub LeadsTo : World → (PublicKey → Router) → Coordinates → Type 0
LeadsTo w net dest = (k : PublicKey) → dest ≢ coordinates w (net k) → KnowsCloser w net dest k

pub output_here :
    (w : World) (packet : TreePacket) (from : PublicKey) (r : Router)
    → next_tree_hop w r packet.destination_coordinates from ≡ ok (some r.public_key)
    → w.client_open ≡ true
    → r.sent ≡ []
    → r.delivered ≡ []
    → output (handle_frame w (tree_routed packet) from r).1 ≡ to_client (tree_routed packet)
unfolding handle_frame route send_to_local output
output_here w packet from r hop open_client none_sent none_delivered =
    rw (hop, ==_self r.public_key, open_client, handle_frame, route, none_sent, none_delivered) refl

pub output_onward :
    (w : World) (packet : TreePacket) (from hop : PublicKey) (r : Router)
    → next_tree_hop w r packet.destination_coordinates from ≡ ok (some hop)
    → hop ≢ r.public_key
    → get r.upload_connections hop ≡ some tt
    → w.link hop (tree_routed packet) ≡ none
    → r.sent ≡ []
    → output (handle_frame w (tree_routed packet) from r).1 ≡ onward hop (tree_routed packet)
unfolding handle_frame route send output
output_onward w packet from hop r next away known sends none_sent =
    rw (next, ==_ne hop r.public_key away, known, sends, handle_frame, route, send, none_sent) refl

pub output_nothing :
    (w : World) (packet : TreePacket) (from : PublicKey) (r : Router)
    → next_tree_hop w r packet.destination_coordinates from ≡ ok none
    → r.sent ≡ []
    → r.delivered ≡ []
    → output (handle_frame w (tree_routed packet) from r).1 ≡ nothing
unfolding handle_frame output
output_nothing w packet from r hop none_sent none_delivered =
    rw (hop, handle_frame, none_sent, none_delivered) refl

pub next_tree_hop_here :
    (w : World) (r : Router) (dest : Coordinates) (from : PublicKey)
    → dest ≡ coordinates w r
    → next_tree_hop w r dest from ≡ ok (some r.public_key)
unfolding next_tree_hop
next_tree_hop_here w r dest from e = rw ((coordinates_eq_iff dest (coordinates w r)).1 e) refl
