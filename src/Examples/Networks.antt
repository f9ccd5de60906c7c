-- ===== src/Examples/Networks.antt =====
-- The theorem on networks, on one: the root 9, and behind its port 2 every other node.
use mathlib.Core.List.{Memᴰ}
use rust_pinecone.Prelude.{
  ◌≡◌, ◌≢◌, ◌<◌, ◌⊎◌, refl, sym, subst, arith, inl, inr, Bool-cases, true, false, [], ◌∷◌, some, ok,
  ◌==◌, ==_iff, if◌then◌else◌,
}
use rust_pinecone.Prelude.Maps.{nat_eq, get}
use rust_pinecone.Tree.{PublicKey}
use rust_pinecone.Coordinates.{
  Coordinates, distance_to, get_common_prefix, common_prefix, signature_ports,
}
use rust_pinecone.Frames.{TreeAnnouncement, TreePacket, tree_routed}
use rust_pinecone.Frames.Announcement.{coords, peer_coords}
use rust_pinecone.Router.State.{Router}
use rust_pinecone.Router.Ports.{peers, peers_of}
use rust_pinecone.Router.Announce.{announcement_of, current_announcement, current_root, coordinates}
use rust_pinecone.Network.{travel, arrived, on_the_way}
use rust_pinecone.Router.TreeHop.Progress.{IsHop}
use rust_pinecone.Router.TreeHop.Closest.{ClosestHop, next_tree_hop-ClosestHop}
use rust_pinecone.Network.Settled.{IsSettled, KnowsCloser, LeadsTo}
use rust_pinecone.Network.Delivery.{travel_arrives, travel_ends}
use rust_pinecone.Examples.{world, signed, announcement, router}

-- What the node 5 announces to the root.
abbrev leaf_announcement : TreeAnnouncement
leaf_announcement = record announcement {
  signatures = signed ∷ record { signing_public_key = 5; destination_port = 1; signature = 0 } ∷ [];
}

abbrev root_router : Router
root_router = record router {
  private_key = 9;
  public_key = 9;
  upload_connections = (5, tt) ∷ [];
  download_connections = (5, tt) ∷ [];
  ports = (2, some 5) ∷ [];
  announcements = (5, leaf_announcement) ∷ [];
  sequence = 3;
}

abbrev leaf_router : PublicKey → Router
leaf_router k = record router { private_key = k; public_key = k }

unfoldable net : PublicKey → Router
net k = if k == 9 then root_router else leaf_router k

-- What a node knows: the root of the node 5, every other of the root.
net_known :
    (k p : PublicKey) (a : TreeAnnouncement)
    → announcement_of (net k) p ≡ some a
    → ((k == 9 ≡ true) × (p ≡ 5) × (a ≡ leaf_announcement))
      ⊎ ((k == 9 ≡ false) × (p ≡ 9) × (a ≡ announcement))
unfolding net get
net_known k p a h = elim (Bool-cases (k == 9)) [
  | inl same ↦ elim (Bool-cases (5 == p)) [
    | inl five ↦ inl (same, sym ((==_iff 5 p).0 five), cc (rw (same, five, get) at h))
    | inr other ↦ absurd (cc (rw (same, other, get) at h))
  ]
  | inr differ ↦ elim (Bool-cases (9 == p)) [
    | inl nine ↦ inr (differ, sym ((==_iff 9 p).0 nine), cc (rw (differ, nine, get) at h))
    | inr other ↦ absurd (cc (rw (differ, other, get) at h))
  ]
]

net_agrees :
    (k p : PublicKey) (a : TreeAnnouncement)
    → announcement_of (net k) p ≡ some a
    → peer_coords a ≡ ok (coordinates world (net p))
unfolding net get peer_coords coordinates current_announcement coords signature_ports
net_agrees k p a h = elim (net_known k p a h) [
  | inl (same, five, at) ↦ rw (five, at) refl
  | inr (differ, nine, at) ↦ rw (nine, at) refl
]

net_linked :
    (k p : PublicKey) (a : TreeAnnouncement)
    → announcement_of (net k) p ≡ some a
    → get (net k).upload_connections p ≡ some tt
unfolding net get
net_linked k p a h = elim (net_known k p a h) [
  | inl (same, five, at) ↦ rw (same, five, get) refl
  | inr (differ, nine, at) ↦ rw (differ, nine, get) refl
]

net-IsSettled : IsSettled world net
unfolding net
net-IsSettled = record {
  named = λ k. ground arith;
  unsent = λ k. ground arith;
  undelivered = λ k. ground arith;
  signed = λ k. elim (Bool-cases (k == 9)) [
    | inl same ↦ rw (same, net) ((λ e. absurd (cc e)), tt)
    | inr differ ↦ rw (differ, net) ((λ e. absurd (cc e)), tt)
  ];
  open_client = refl;
  sends = λ to frame. refl;
  linked = net_linked;
  agrees = λ k p a h same. net_agrees k p a h;
}

-- A packet to the node 5.
abbrev packet : TreePacket
packet = record {
  source_coordinates = record { coordinates = [] };
  destination_coordinates = record { coordinates = 2 ∷ [] };
  payload = 1 ∷ [];
}

root_knows : KnowsCloser world net packet.destination_coordinates 9
unfolding net get peers peers_of current_root coordinates current_announcement coords
    signature_ports distance_to get_common_prefix common_prefix
root_knows = (5, leaf_announcement, Memᴰ.head refl, refl, refl, omega arith)

leaf_place :
    (k : PublicKey) → k == 9 ≡ false → packet.destination_coordinates ≡ coordinates world (net k)
unfolding net get coordinates current_announcement coords signature_ports
leaf_place k differ = rw (differ, net) refl

net-LeadsTo : LeadsTo world net packet.destination_coordinates
net-LeadsTo k far = elim (Bool-cases (k == 9)) [
  | inl same ↦
      subst (KnowsCloser world net packet.destination_coordinates) (sym ((==_iff k 9).0 same))
        root_knows
  | inr differ ↦ absurd (far (leaf_place k differ))
]

root_away : distance_to packet.destination_coordinates (coordinates world (net 9)) < 2
unfolding net get coordinates current_announcement coords signature_ports distance_to
    get_common_prefix common_prefix
root_away = omega arith

travel_arrives_example :
    (node : PublicKey) × (travel world net 2 (tree_routed packet) 9 9
      ≡ arrived node (tree_routed packet))
    × (packet.destination_coordinates ≡ coordinates world (net node))
travel_arrives_example = travel_arrives net-IsSettled packet 2 9 9 net-LeadsTo (inl refl) root_away

travel_ends_example : travel world net 2 (tree_routed packet) 9 9 ≢ on_the_way
travel_ends_example = travel_ends net-IsSettled packet 2 9 9 root_away

-- The router 5, for a packet to the root.
abbrev to_root : Coordinates
to_root = record { coordinates = [] }

router-IsHop : IsHop world router to_root 5 9 0
unfolding get peer_coords current_root current_announcement signature_ports distance_to
    get_common_prefix common_prefix
router-IsHop = record {
  announcement = announcement;
  place = record { coordinates = [] };
  not_back = λ e. absurd (omega arith);
  known = refl;
  same_root = refl;
  placed = refl;
  measured = omega arith;
}

root_is_closer : 0 < distance_to to_root (coordinates world router)
unfolding get coordinates current_announcement coords signature_ports distance_to get_common_prefix
    common_prefix
root_is_closer = omega arith

root_is_peer : Memᴰ 9 (peers router)
unfolding peers peers_of
root_is_peer = Memᴰ.head refl

next_tree_hop-ClosestHop_example : ClosestHop world router to_root 5 0
next_tree_hop-ClosestHop_example =
    next_tree_hop-ClosestHop world router to_root 5 9 0 ((λ e. absurd (cc e)), tt) root_is_peer
      router-IsHop root_is_closer
