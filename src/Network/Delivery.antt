-- ===== src/Network/Delivery.antt =====
-- A tree packet in a network of routers of src/router.rs whose spanning tree has settled.
use rust_pinecone.Prelude.{
  ℕ, zero, suc, ◌<◌, ◌≡◌, ◌≢◌, ◌⊎◌, inl, inr, refl, sym, ap, subst, ◌∙◌, arith, Option, none, some,
  Bool-cases, ok, Holds-ok,
}
use rust_pinecone.Prelude.Maps.{nat_eq}
use rust_pinecone.Tree.{PublicKey}
use rust_pinecone.Coordinates.{Coordinates, distance_to, coordinates_eq}
use rust_pinecone.Coordinates.Metric.{coordinates_eq_iff, distance_to_comm}
use rust_pinecone.Frames.{TreePacket, tree_routed}
use rust_pinecone.Router.State.{Router, World}
use rust_pinecone.Router.Announce.{coordinates}
use rust_pinecone.Router.TreeHop.{next_tree_hop}
use rust_pinecone.Router.TreeHop.Progress.{IsHop, Forwards, next_tree_hop-Forwards}
use rust_pinecone.Router.TreeHop.Total.{next_tree_hop_total}
use rust_pinecone.Router.TreeHop.Closest.{next_tree_hop-ClosestHop}
use rust_pinecone.Network.{arrived, output, onward, to_client, nothing, on_the_way, handled, travel}
use rust_pinecone.Network.Settled.{
  IsSettled, LeadsTo, output_here, output_onward, output_nothing, next_tree_hop_here,
}

module _ {w : World} {net : PublicKey → Router} (settled : IsSettled w net)
    (packet : TreePacket) where
  abbrev goal : Coordinates
  goal = packet.destination_coordinates

  -- How far a node is from the destination.
  abbrev pub away : PublicKey → ℕ
  away k = distance_to goal (coordinates w (net k))

  -- The packet starts here, or comes from farther away.
  abbrev pub Inward : PublicKey → PublicKey → Type 0
  Inward from k = (from ≡ k) ⊎ (away k < away from)

  not_back : (k from p : PublicKey) → Inward from k → away p < away k → p ≢ from
  not_back k from p (inl same) closer e =
      let h = subst (λ x. away x < away k) (e ∙ same) closer in omega arith
  not_back k from p (inr inward) closer e =
      let h = subst (λ x. away x < away k) e closer in omega arith

  -- A hop is where its announcement says.
  hop_away : (k from hop : PublicKey) (at : ℕ) → IsHop w (net k) goal from hop at → away hop ≡ at
  hop_away k from hop at h =
      let placed : ok h.place ≡ ok (coordinates w (net hop)) =
        sym h.placed ∙ settled.agrees k hop h.announcement h.known h.same_root in
      let place : h.place ≡ coordinates w (net hop) = cc placed in
      distance_to_comm goal (coordinates w (net hop))
      ∙ ap (λ c. distance_to c goal) (sym place)
      ∙ sym h.measured

  -- The router sends the packet on to its hop.
  goes_on :
      (k from hop : PublicKey) (at : ℕ)
      → next_tree_hop w (net k) goal from ≡ ok (some hop)
      → IsHop w (net k) goal from hop at
      → away hop < away k
      → output (handled w net (tree_routed packet) k from) ≡ onward hop (tree_routed packet)
  goes_on k from hop at next is_hop nearer =
      output_onward w packet from hop (net k) next
        (λ e.
          absurd (let h = subst (λ x. away x < away k) (e ∙ settled.named k) nearer in omega arith))
        (settled.linked k hop is_hop.announcement is_hop.known)
        (settled.sends hop (tree_routed packet)) (settled.unsent k)

  goes_nearer :
      (k from : PublicKey)
      → LeadsTo w net goal
      → goal ≢ coordinates w (net k)
      → Inward from k
      → (hop : PublicKey) × (output (handled w net (tree_routed packet) k from)
          ≡ onward hop (tree_routed packet))
        × (away hop < away k)
  goes_nearer k from leads far inward =
      let (p, a, there, known, same, closer) = leads k far in
      let closest =
        next_tree_hop-ClosestHop w (net k) goal from p (distance_to (coordinates w (net p)) goal)
          (settled.signed k) there
          (record {
            announcement = a;
            place = coordinates w (net p);
            not_back = not_back k from p inward closer;
            known = known;
            same_root = same;
            placed = settled.agrees k p a known same;
            measured = refl;
          })
          (omega (arith, distance_to_comm goal (coordinates w (net p)))) in
      let (hop, at, next, is_hop, le) = closest in
      let nearer : away hop < away k =
        omega
          (arith, hop_away k from hop at is_hop, distance_to_comm goal (coordinates w (net p))) in
      (hop, goes_on k from hop at next is_hop nearer, nearer)

  -- In a network whose spanning tree has settled (each router has its own key; the announcements
  -- that it stores have signatures and are of connected peers, and one under its root gives the
  -- coordinates that this peer's router has; nothing waits, sends succeed and clients take
  -- frames), where every router that is not at the destination of a tree packet stores, of some
  -- peer, an announcement under its root and this peer is closer: a packet that starts at a node,
  -- or comes there from a node farther away, is handed by `handle_frame` from router to router
  -- each router handling the frame that the one before it sent, until it arrives, unchanged, at
  -- the client of a node with exactly the destination's coordinates, in no more hops than its
  -- distance.
  pub travel_arrives :
      (fuel : ℕ) (k from : PublicKey)
      → LeadsTo w net goal
      → Inward from k
      → away k < fuel
      → (node : PublicKey) × (travel w net fuel (tree_routed packet) k from
          ≡ arrived node (tree_routed packet))
        × (goal ≡ coordinates w (net node))
  unfolding travel
  travel_arrives zero k from leads inward enough = absurd (omega arith)
  travel_arrives (suc fuel) k from leads inward enough =
      elim (Bool-cases (coordinates_eq goal (coordinates w (net k)))) [
        | inl same ↦
            let here = (coordinates_eq_iff goal (coordinates w (net k))).0 same in
            (
              k,
              rw
                  (
                    output_here w packet from (net k) (next_tree_hop_here w (net k) goal from here)
                        settled.open_client (settled.unsent k) (settled.undelivered k),
                    travel,
                  )
                  refl,
              here,
            )
        | inr differ ↦
            let far : goal ≢ coordinates w (net k) =
              λ e. cc (differ, (coordinates_eq_iff goal (coordinates w (net k))).1 e) in
            let (hop, out, nearer) = goes_nearer k from leads far inward in
            let (node, ends, there) = travel_arrives fuel hop k leads (inr nearer) (omega arith) in
            (node, rw (out, travel) ends, there)
      ]

  -- A packet stays, or moves on to where it is closer.
  abbrev Moves : PublicKey → PublicKey → Type 0
  Moves k from =
      (output (handled w net (tree_routed packet) k from) ≡ nothing)
      ⊎ (output (handled w net (tree_routed packet) k from) ≡ to_client (tree_routed packet))
      ⊎ ((hop : PublicKey) × (output (handled w net (tree_routed packet) k from)
            ≡ onward hop (tree_routed packet))
          × (away hop < away k))

  hop-Moves :
      (k from : PublicKey) (hop : Option PublicKey)
      → next_tree_hop w (net k) goal from ≡ ok hop
      → Forwards w (net k) goal from hop
      → Moves k from
  hop-Moves k from none next f =
      inl (output_nothing w packet from (net k) next (settled.unsent k) (settled.undelivered k))
  hop-Moves k from (some p) next (inl (own, here)) = inr (
      inl (
        output_here w packet from (net k) (next_tree_hop_here w (net k) goal from here)
          settled.open_client (settled.unsent k) (settled.undelivered k)))
  hop-Moves k from (some p) next (inr (d, is_hop, lt)) =
      let nearer : away p < away k = omega (arith, hop_away k from p d is_hop) in
      inr (inr (p, goes_on k from p d next is_hop nearer, nearer))

  moves : (k from : PublicKey) → Moves k from
  moves k from =
      let (hop, next) = next_tree_hop_total w (net k) goal from (settled.signed k) in
      hop-Moves k from hop next (
        Holds-ok (Forwards w (net k) goal from) (next_tree_hop w (net k) goal from) hop
          (next_tree_hop-Forwards w (net k) goal from) next)

  -- In a network whose spanning tree has settled (in the same sense as for `travel_arrives`), a
  -- tree packet, each router handling the frame that the one before it sent, never runs in a
  -- loop: with fuel for more nodes than the distance of its node from the destination, it is not
  -- on the way any more, but has arrived or was dropped.
  pub travel_ends :
      (fuel : ℕ) (k from : PublicKey)
      → away k < fuel
      → travel w net fuel (tree_routed packet) k from ≢ on_the_way
  unfolding travel
  travel_ends zero k from enough e = absurd (omega arith)
  travel_ends (suc fuel) k from enough e = elim (moves k from) [
    | inl out ↦ absurd (cc (rw (out, travel) at e))
    | inr (inl out) ↦ absurd (cc (rw (out, travel) at e))
    | inr (inr (hop, out, nearer)) ↦ travel_ends fuel hop k (omega arith) (rw (out, travel) at e)
  ]
