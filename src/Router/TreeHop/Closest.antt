-- ===== src/Router/TreeHop/Closest.antt =====
-- `next_tree_hop` of src/router.rs: no other peer is closer than the hop that it chooses.
use rust_pinecone.Prelude.{
  ℕ, ◌<◌, ◌≤◌, ◌≡◌, inl, inr, refl, sym, subst, arith, false, List, [], ◌∷◌, some, ◌==◌, ==_ne,
  Bool-cases, Option-cases, ok, Holds, Holds-ok, bind_reply-Holds,
}
use mathlib.Core.List.{Memᴰ}
use rust_pinecone.Tree.{PublicKey, root_eq}
use rust_pinecone.Tree.Order.{root_eq_iff}
use rust_pinecone.Coordinates.{Coordinates, distance_to, coordinates_eq}
use rust_pinecone.Coordinates.Metric.{coordinates_eq_iff, distance_to-zero_iff}
use rust_pinecone.Frames.{TreeAnnouncement}
use rust_pinecone.Frames.Announcement.{peer_coords}
use rust_pinecone.Router.State.{Router, World}
use rust_pinecone.Router.Ports.{peers}
use rust_pinecone.Router.Announce.{announcement_of, current_root, coordinates}
use rust_pinecone.Router.HandleAnnouncement.Signed.{Signed}
use rust_pinecone.Router.TreeHop.{
  BestHop, is_better_next_tree_hop_candidate, pick_hop, weigh_hop, hop_step, hop_loop, first_hop,
  next_tree_hop,
}
use rust_pinecone.Router.TreeHop.Progress.{IsHop, Chosen, hop_loop-Chosen}
use rust_pinecone.Router.TreeHop.Total.{hop_loop_total}

not_here : (c d : Coordinates) → 0 < distance_to c d → coordinates_eq c d ≡ false
not_here c d h = elim (Bool-cases (coordinates_eq c d)) [
  | inl same ↦
      absurd (omega (arith, (distance_to-zero_iff c d).1 ((coordinates_eq_iff c d).0 same)))
  | inr differ ↦ differ
]

module _ (w : World) (r : Router) (dest : Coordinates) (from : PublicKey) where
  -- What is chosen is never farther away than what was, nor than the peer that was weighed.
  pick_hop-le :
      (peer : PublicKey) (a : TreeAnnouncement) (best : BestHop) (place : Coordinates)
      → ((pick_hop dest peer a best place).distance ≤ best.distance)
        × ((pick_hop dest peer a best place).distance ≤ distance_to place dest)
  unfolding pick_hop is_better_next_tree_hop_candidate
  pick_hop-le peer a best place = ground arith

  abbrev Below : ℕ → BestHop → Type 0
  Below d best = best.distance ≤ d

  hop_step-Below :
      (d : ℕ) (peer : PublicKey) (best : BestHop)
      → Below d best
      → Holds (Below d) (hop_step w r dest from peer best)
  unfolding weigh_hop hop_step
  hop_step-Below d peer best h = elim (Bool-cases (peer == from)) [
    | inl back ↦ rw (back, hop_step) h
    | inr on ↦
        rw (on, hop_step)
          (elim (Option-cases (announcement_of r peer)) [
            | inl unknown ↦ rw unknown h
            | inr (a, known) ↦ rw known (elim (Bool-cases (root_eq (current_root w r) a.root)) [
              | inl same ↦ rw same (
                  bind_reply-Holds (Below d) (peer_coords a) _
                    λ place l. (let le = (pick_hop-le peer a best place).0 in omega arith))
              | inr other ↦ rw other h
            ])
          ])
  ]

  hop_loop-Below :
      (d : ℕ) (ps : List PublicKey) (best : BestHop)
      → Below d best
      → Holds (Below d) (hop_loop w r dest from ps best)
  unfolding hop_loop
  hop_loop-Below d [] best h = h
  hop_loop-Below d (p ∷ ps) best h =
      bind_reply-Holds (Below d) (hop_step w r dest from p best) _ λ best' e.
        hop_loop-Below d ps best' (Holds-ok (Below d) _ best' (hop_step-Below d p best h) e)

  hop_step_hop :
      (peer : PublicKey) (d : ℕ) (best : BestHop)
      → IsHop w r dest from peer d
      → Holds (Below d) (hop_step w r dest from peer best)
  unfolding weigh_hop hop_step
  hop_step_hop peer d best hop =
      rw
        (
          ==_ne peer from hop.not_back,
          hop.known,
          (root_eq_iff (current_root w r) hop.announcement.root).1 (sym hop.same_root),
          hop.placed,
          hop_step,
        )
        (let le = (pick_hop-le peer hop.announcement best hop.place).1 in rw hop.measured le)

  hop_loop_hop :
      (peer : PublicKey) (d : ℕ) (ps : List PublicKey) (best : BestHop)
      → IsHop w r dest from peer d
      → Memᴰ peer ps
      → Holds (Below d) (hop_loop w r dest from ps best)
  unfolding hop_loop
  hop_loop_hop peer d [] best hop here = elim here [ ]
  hop_loop_hop peer d (p ∷ ps) best hop (Memᴰ.head e) =
      bind_reply-Holds (Below d) (hop_step w r dest from p best) _ λ best' is_best.
        hop_loop-Below d ps best' (
          Holds-ok (Below d) _ best'
            (subst (λ k. Holds (Below d) (hop_step w r dest from k best)) e
              (hop_step_hop peer d best hop))
            is_best)
  hop_loop_hop peer d (p ∷ ps) best hop (Memᴰ.tail later) =
      bind_reply-Holds (Below d) (hop_step w r dest from p best) _
        λ best' is_best. hop_loop_hop peer d ps best' hop later

  -- A closest hop, no farther away than `d`.
  abbrev pub ClosestHop : ℕ → Type 0
  ClosestHop d =
      (hop : PublicKey) × (at : ℕ) × (next_tree_hop w r dest from ≡ ok (some hop))
      × IsHop w r dest from hop at
      × (at ≤ d)

  Chosen-ClosestHop :
      (d : ℕ) (best : BestHop)
      → Chosen w r dest from (distance_to dest (coordinates w r)) best
      → d < distance_to dest (coordinates w r)
      → Below d best
      → hop_loop w r dest from (peers r) (first_hop w r dest from) ≡ ok best
      → ClosestHop d
  unfolding next_tree_hop
  Chosen-ClosestHop d best (inl (none_yet, at)) nearer below e = absurd (omega arith)
  Chosen-ClosestHop d best (inr (p, chosen, hop, closer)) nearer below e = (
    p,
    best.distance,
    rw
        (
          not_here dest (coordinates w r) (omega arith),
          ==_ne (distance_to dest (coordinates w r)) 0 (λ zero_away. absurd (omega arith)),
          e,
          chosen,
        )
        refl,
    hop,
    below,
  )

  -- If every stored announcement has a signature, and some peer other than the sender has
  -- announced this router's current root and coordinates strictly closer to the destination than
  -- this router's, then tree routing yields such a peer, at most as far from the destination as
  -- that one.
  pub next_tree_hop-ClosestHop :
      (peer : PublicKey) (d : ℕ)
      → Signed r
      → Memᴰ peer (peers r)
      → IsHop w r dest from peer d
      → d < distance_to dest (coordinates w r)
      → ClosestHop d
  next_tree_hop-ClosestHop peer d signed there hop nearer =
      let (best, e) = hop_loop_total w r dest from (peers r) (first_hop w r dest from) signed in
      Chosen-ClosestHop d best
        (Holds-ok (Chosen w r dest from (distance_to dest (coordinates w r))) _ best
          (hop_loop-Chosen w r dest from (distance_to dest (coordinates w r)) (peers r)
            (first_hop w r dest from) (inl (refl, refl)))
          e)
        nearer
        (Holds-ok (Below d) _ best
          (hop_loop_hop peer d (peers r) (first_hop w r dest from) hop there) e)
        e
