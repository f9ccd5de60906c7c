-- ===== src/Router/TreeHop/Progress.antt =====
-- `next_tree_hop` of src/router.rs: where its hops lead.
use rust_pinecone.Prelude.{
  ℕ, ◌<◌, ◌≤◌, ◌≡◌, ◌≢◌, ◌⊎◌, inl, inr, refl, sym, arith, List, [], ◌∷◌, Option, none, some, ◌==◌,
  ==_iff, Bool-cases, Option-cases, ok, Holds, Holds-ok, bind_reply-Holds,
}
use rust_pinecone.Tree.{PublicKey, root_eq}
use rust_pinecone.Tree.Order.{root_eq_iff}
use rust_pinecone.Coordinates.{Coordinates, distance_to, coordinates_eq}
use rust_pinecone.Coordinates.Metric.{coordinates_eq_iff, distance_to-zero_iff}
use rust_pinecone.Frames.{TreeAnnouncement}
use rust_pinecone.Frames.Announcement.{peer_coords}
use rust_pinecone.Router.State.{Router, World}
use rust_pinecone.Router.Ports.{peers}
use rust_pinecone.Router.Announce.{announcement_of, current_root, coordinates}
use rust_pinecone.Router.TreeHop.{
  BestHop, is_better_next_tree_hop_candidate, pick_hop, weigh_hop, hop_step, hop_loop, first_hop,
  next_tree_hop,
}

module _ (w : World) (r : Router) (dest : Coordinates) (from : PublicKey) where
  -- A peer that the frame may go to: not where it came from, under the current root, and so far away.
  pub record IsHop (peer : PublicKey) (distance : ℕ) : Type 0 where
    pub announcement : TreeAnnouncement
    pub place : Coordinates
    pub not_back : peer ≢ from
    pub known : announcement_of r peer ≡ some announcement
    pub same_root : announcement.root ≡ current_root w r
    pub placed : peer_coords announcement ≡ ok place
    pub measured : distance ≡ distance_to place dest

  -- Either no peer is chosen yet, or the chosen one is closer than `start`.
  abbrev pub Chosen : ℕ → BestHop → Type 0
  Chosen start best =
      ((best.peer ≡ none) × (best.distance ≡ start))
      ⊎ ((p : PublicKey) × (best.peer ≡ some p) × IsHop p best.distance × (best.distance < start))

  -- What is chosen is closer than what was, or as close as an earlier choice.
  pick_hop_cases :
      (peer : PublicKey) (a : TreeAnnouncement) (best : BestHop) (place : Coordinates)
      → (pick_hop dest peer a best place ≡ best)
        ⊎ ((pick_hop dest peer a best place ≡ record {
          peer = some peer;
          distance = distance_to place dest;
          order = a.receive_order;
        })
            × (distance_to place dest ≤ best.distance)
            × (best.peer ≡ none → distance_to place dest < best.distance))
  unfolding pick_hop is_better_next_tree_hop_candidate
  pick_hop_cases peer a best place = ground arith

  closer :
      (start : ℕ) (best : BestHop) (d : ℕ)
      → Chosen start best
      → d ≤ best.distance
      → (best.peer ≡ none → d < best.distance)
      → d < start
  closer start best d (inl (none_yet, at)) le lt = let h = lt none_yet in omega arith
  closer start best d (inr (p, e, h, below)) le lt = omega arith

  pick_hop-Chosen :
      (start : ℕ) (peer : PublicKey) (a : TreeAnnouncement) (best : BestHop) (place : Coordinates)
      → peer ≢ from
      → announcement_of r peer ≡ some a
      → a.root ≡ current_root w r
      → peer_coords a ≡ ok place
      → Chosen start best
      → Chosen start (pick_hop dest peer a best place)
  pick_hop-Chosen start peer a best place n k s l c = elim (pick_hop_cases peer a best place) [
    | inl same ↦ rw same c
    | inr (new, le, lt) ↦
        rw new (inr (peer, refl, hop, closer start best (distance_to place dest) c le lt))
  ]
    where
      hop : IsHop peer (distance_to place dest)
      hop = record {
        announcement = a;
        place = place;
        not_back = n;
        known = k;
        same_root = s;
        placed = l;
        measured = refl;
      }

  hop_step-Chosen :
      (start : ℕ) (peer : PublicKey) (best : BestHop)
      → Chosen start best
      → Holds (Chosen start) (hop_step w r dest from peer best)
  unfolding weigh_hop hop_step
  hop_step-Chosen start peer best c = elim (Bool-cases (peer == from)) [
    | inl back ↦ rw (back, hop_step) c
    | inr on ↦
        rw (on, hop_step)
          (elim (Option-cases (announcement_of r peer)) [
            | inl unknown ↦ rw unknown c
            | inr (a, known) ↦ rw known (elim (Bool-cases (root_eq (current_root w r) a.root)) [
              | inl same ↦ rw same (
                  bind_reply-Holds (Chosen start) (peer_coords a) _ λ place l.
                    pick_hop-Chosen start peer a best place (ground arith) known
                      (sym ((root_eq_iff _ _).0 same)) l c)
              | inr other ↦ rw other c
            ])
          ])
  ]

  pub hop_loop-Chosen :
      (start : ℕ) (ps : List PublicKey) (best : BestHop)
      → Chosen start best
      → Holds (Chosen start) (hop_loop w r dest from ps best)
  unfolding hop_loop
  hop_loop-Chosen start [] best c = c
  hop_loop-Chosen start (p ∷ ps) best c =
      bind_reply-Holds (Chosen start) (hop_step w r dest from p best) _ λ best' e.
        hop_loop-Chosen start ps best'
          (Holds-ok (Chosen start) _ best' (hop_step-Chosen start p best c) e)

  -- A frame has arrived where the destination is this router's own place. Otherwise the next hop is
  -- a peer other than the sender, under the same root, that is strictly closer to the destination.
  abbrev pub Forwards : Option PublicKey → Type 0
  Forwards none = Unit {0}
  Forwards (some p) =
      ((p ≡ r.public_key) × (dest ≡ coordinates w r))
      ⊎ ((d : ℕ) × IsHop p d × (d < distance_to dest (coordinates w r)))

  Chosen-Forwards :
      (best : BestHop) → Chosen (distance_to dest (coordinates w r)) best → Forwards best.peer
  Chosen-Forwards best (inl (e, d)) = rw e tt
  Chosen-Forwards best (inr (p, e, h, lt)) = rw e (inr (best.distance, h, lt))

  -- Where tree routing yields a hop, it is this router itself with the destination equal to its
  -- own coordinates, or a peer other than the sender that has announced this router's current
  -- root and whose coordinates are strictly closer to the destination than this router's.
  pub next_tree_hop-Forwards : Holds Forwards (next_tree_hop w r dest from)
  unfolding next_tree_hop
  next_tree_hop-Forwards = elim (Bool-cases (coordinates_eq dest (coordinates w r))) [
    | inl here ↦ rw here (inl (refl, (coordinates_eq_iff _ _).0 here))
    | inr away ↦ rw away (elim (Bool-cases (distance_to dest (coordinates w r) == 0)) [
      | inl zero_away ↦
          rw zero_away (inl (refl, (distance_to-zero_iff _ _).0 ((==_iff _ _).0 zero_away)))
      | inr far ↦ rw far (
          bind_reply-Holds Forwards (hop_loop w r dest from (peers r) (first_hop w r dest from))
            (λ best. ok best.peer)
            λ best e. Chosen-Forwards best (
              Holds-ok (Chosen _) _ best
                (hop_loop-Chosen _ (peers r) (first_hop w r dest from) (inl (refl, refl))) e))
    ])
  ]
