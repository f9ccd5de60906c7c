-- ===== src/Router/ParentSelection/Best.antt =====
-- The loop of `parent_selection` of src/router.rs: the root and the peer that it ends with.
use rust_pinecone.Prelude.{
  subst, ◌≡◌, ◌⊎◌, inl, inr, refl, arith, Bool, true, false, List, [], ◌∷◌, All, none, some,
  if◌then◌else◌, Option-cases, ok, Holds, Holds-ok, Holds-map, bind_reply-Holds,
}
use rust_pinecone.Tree.{PublicKey, Root, cmp}
use rust_pinecone.Tree.Order.{RootLe, RootLe-refl, RootLe-trans}
use rust_pinecone.Frames.{TreeAnnouncement}
use rust_pinecone.Router.State.{Router, World}
use rust_pinecone.Router.Ports.{peers}
use rust_pinecone.Router.Announce.{announcement_of, current_root}
use rust_pinecone.Router.ParentSelection.{
  BestParent, weigh_parent, eligible, parent_step, parent_loop, best_parent,
}

-- A weighed root is not above the best one then, and that does not fall.
weigh_parent-RootLe :
    (peer : PublicKey) (a : TreeAnnouncement) (best : BestParent)
    → RootLe best.root (weigh_parent peer a best).root
      × RootLe a.root (weigh_parent peer a best).root
unfolding weigh_parent cmp
weigh_parent-RootLe peer a best = ground arith

weigh_parent_cases :
    (peer : PublicKey) (a : TreeAnnouncement) (best : BestParent)
    → (weigh_parent peer a best ≡ best)
      ⊎ (weigh_parent peer a best
          ≡ record { root = a.root; peer = some peer; order = a.receive_order })
unfolding weigh_parent
weigh_parent_cases peer a best = ground arith

module _ (w : World) (r : Router) where
  -- The peer offers the root: it has an announcement that may be followed.
  pub record Offers (peer : PublicKey) (root : Root) : Type 0 where
    pub announcement : TreeAnnouncement
    pub known : announcement_of r peer ≡ some announcement
    pub fit : eligible w r announcement ≡ ok true
    pub under : announcement.root ≡ root

  -- No peer of the list offers a root above this one.
  abbrev pub Tops : Root → List PublicKey → Type 0
  Tops root = All λ p.
      (a : TreeAnnouncement)
      → announcement_of r p ≡ some a
      → eligible w r a ≡ ok true
      → RootLe a.root root

  -- The chosen peer offers the best root; with none chosen the root is the one from the start.
  abbrev pub Source : Root → BestParent → Type 0
  Source start best =
      ((best.peer ≡ none) × (best.root ≡ start))
      ⊎ ((p : PublicKey) × (best.peer ≡ some p) × Offers p best.root)

  weigh_parent-Source :
      (start : Root) (peer : PublicKey) (a : TreeAnnouncement) (best : BestParent)
      → announcement_of r peer ≡ some a
      → eligible w r a ≡ ok true
      → Source start best
      → Source start (weigh_parent peer a best)
  weigh_parent-Source start peer a best k f s = elim (weigh_parent_cases peer a best) [
    | inl same ↦ rw same s
    | inr new ↦
        rw new (inr (peer, refl, record { announcement = a; known = k; fit = f; under = refl }))
  ]

  abbrev Step : Root → PublicKey → BestParent → BestParent → Type 0
  Step start peer best best' =
      RootLe best.root best'.root
      × ((a : TreeAnnouncement)
          → announcement_of r peer ≡ some a
          → eligible w r a ≡ ok true
          → RootLe a.root best'.root)
      × Source start best'

  take-Step :
      (start : Root) (peer : PublicKey) (a : TreeAnnouncement) (best : BestParent) (fit : Bool)
      → announcement_of r peer ≡ some a
      → eligible w r a ≡ ok fit
      → Source start best
      → Step start peer best (if fit then weigh_parent peer a best else best)
  take-Step start peer a best true k e s = (
    (weigh_parent-RootLe peer a best).0,
    λ b kb fb.
        subst (λ x. RootLe x.root (weigh_parent peer a best).root) (same b kb)
          (weigh_parent-RootLe peer a best).1,
    weigh_parent-Source start peer a best k e s,
  )
    where
      same : (b : TreeAnnouncement) → announcement_of r peer ≡ some b → a ≡ b
      same b kb = cc
  take-Step start peer a best false k e s =
      (RootLe-refl best.root, λ b kb fb. absurd (unfit b kb fb), s)
    where
      unfit :
          (b : TreeAnnouncement) → announcement_of r peer ≡ some b → eligible w r b ≡ ok true → ⊥
      unfit b kb fb = cc

  parent_step-Step :
      (start : Root) (peer : PublicKey) (best : BestParent)
      → Source start best
      → Holds (Step start peer best) (parent_step w r peer best)
  unfolding parent_step
  parent_step-Step start peer best s = elim (Option-cases (announcement_of r peer)) [
    | inl unknown ↦
        rw (unknown, parent_step)
          (RootLe-refl best.root, λ a k f. absurd (none_known a unknown k), s)
    | inr (a, known) ↦
        rw (known, parent_step)
          (bind_reply-Holds (Step start peer best) (eligible w r a) _
            λ fit e. take-Step start peer a best fit known e s)
  ]
    where
      none_known :
          (a : TreeAnnouncement)
          → announcement_of r peer ≡ none
          → announcement_of r peer ≡ some a
          → ⊥
      none_known a u k = cc

  -- Among the roots of these peers that may be followed and the root from the start, this is the
  -- strongest one.
  abbrev pub Strongest : Root → List PublicKey → BestParent → Type 0
  Strongest start ps best = RootLe start best.root × Tops best.root ps × Source start best

  parent_loop-Strongest :
      (start : Root) (ps : List PublicKey) (best : BestParent)
      → Source start best
      → Holds
          (λ b. RootLe best.root b.root × Tops b.root ps × Source start b)
          (parent_loop w r ps best)
  unfolding parent_loop
  parent_loop-Strongest start [] best s = (RootLe-refl best.root, tt, s)
  parent_loop-Strongest start (p ∷ ps) best s = bind_reply-Holds _ (parent_step w r p best) _ λ b e.
      let (le, tops, s') = Holds-ok (Step start p best) _ b (parent_step-Step start p best s) e in
      Holds-map _ _ (parent_loop w r ps b)
        (λ c (le', rest, s''). (
          RootLe-trans best.root b.root c.root le le',
          (λ a k f. RootLe-trans a.root b.root c.root (tops a k f) le', rest),
          s'',
        ))
        (parent_loop-Strongest start ps b s')

-- Where the loop of the parent selection ends without a panic, its root is not below the router's
-- current root nor below the root of any peer whose announcement is recent and does not name this
-- router; and either no peer is chosen and it is the current root, or the chosen peer has such an
-- announcement with this root.
pub best_parent-Strongest :
    (w : World) (r : Router) → Holds (Strongest w r (current_root w r) (peers r)) (best_parent w r)
unfolding best_parent
best_parent-Strongest w r =
    parent_loop-Strongest w r (current_root w r) (peers r) _ (inl (refl, refl))
