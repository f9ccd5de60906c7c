-- ===== src/Router/TreeHop/Total.antt =====
-- `next_tree_hop` of src/router.rs: when it has a result.
use rust_pinecone.Prelude.{
  ◌≢◌, inl, inr, refl, List, [], ◌∷◌, List-cases, ◌==◌, Bool-cases, Option-cases, IsOk,
  bind_reply-IsOk,
}
use rust_pinecone.Prelude.Maps.{nat_eq, All-get}
use rust_pinecone.Tree.{PublicKey, root_eq}
use rust_pinecone.Coordinates.{Coordinates, distance_to, coordinates_eq}
use rust_pinecone.Frames.{TreeAnnouncement}
use rust_pinecone.Frames.Announcement.{peer_coords}
use rust_pinecone.Router.State.{Router, World}
use rust_pinecone.Router.Ports.{peers}
use rust_pinecone.Router.Announce.{announcement_of, current_root, coordinates}
use rust_pinecone.Router.HandleAnnouncement.Signed.{Signed}
use rust_pinecone.Router.TreeHop.{BestHop, weigh_hop, hop_step, hop_loop, first_hop, next_tree_hop}

peer_coords_total : (a : TreeAnnouncement) → a.signatures ≢ [] → IsOk (peer_coords a)
unfolding peer_coords
peer_coords_total a h = elim (List-cases a.signatures) [
  | inl e ↦ absurd (h e)
  | inr (s, rest, e) ↦ rw (e, peer_coords) (_, refl)
]

module _ (w : World) (r : Router) (dest : Coordinates) (from : PublicKey) where
  hop_step_total :
      (peer : PublicKey) (best : BestHop) → Signed r → IsOk (hop_step w r dest from peer best)
  unfolding weigh_hop hop_step
  hop_step_total peer best h = elim (Bool-cases (peer == from)) [
    | inl back ↦ rw (back, hop_step) (_, refl)
    | inr on ↦
        rw (on, hop_step)
          (elim (Option-cases (announcement_of r peer)) [
            | inl unknown ↦ rw unknown (_, refl)
            | inr (a, known) ↦ rw known (elim (Bool-cases (root_eq (current_root w r) a.root)) [
              | inl same ↦ rw same (
                  bind_reply-IsOk (peer_coords a) _
                    (peer_coords_total a (
                      All-get (λ (a : TreeAnnouncement). a.signatures ≢ []) r.announcements peer a h
                        known))
                    λ place. (_, refl))
              | inr other ↦ rw other (_, refl)
            ])
          ])
  ]

  pub hop_loop_total :
      (ps : List PublicKey) (best : BestHop) → Signed r → IsOk (hop_loop w r dest from ps best)
  unfolding hop_loop
  hop_loop_total [] best h = (best, refl)
  hop_loop_total (p ∷ ps) best h =
      bind_reply-IsOk (hop_step w r dest from p best) _ (hop_step_total p best h)
        λ best'. hop_loop_total ps best' h

  -- If every stored announcement has a signature, tree routing ends with a result, a hop or none,
  -- and never with a panic.
  pub next_tree_hop_total : Signed r → IsOk (next_tree_hop w r dest from)
  unfolding next_tree_hop
  next_tree_hop_total h = elim (Bool-cases (coordinates_eq dest (coordinates w r))) [
    | inl here ↦ rw here (_, refl)
    | inr away ↦ rw away (elim (Bool-cases (distance_to dest (coordinates w r) == 0)) [
      | inl zero_away ↦ rw zero_away (_, refl)
      | inr far ↦ rw far (
          bind_reply-IsOk (hop_loop w r dest from (peers r) (first_hop w r dest from)) _
            (hop_loop_total (peers r) (first_hop w r dest from) h) λ best. (_, refl))
    ])
  ]
