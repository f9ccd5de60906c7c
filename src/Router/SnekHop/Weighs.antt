-- ===== src/Router/SnekHop/Weighs.antt =====
-- `next_snek_hop` of src/router.rs: what the scan of the routing table does to the best key.
use rust_pinecone.Prelude.{
  ◌≡◌, ◌⊎◌, inl, inr, arith, Bool, true, false, not, ◌&&◌, ◌||◌, [], ◌∷◌, ◌==◌, ==_iff, Bool-cases,
  Option-cases, All, ok, Holds, Holds-ok, Holds-map, bind_reply-Holds,
}
use rust_pinecone.Prelude.Maps.{HashMap}
use rust_pinecone.Tree.{PublicKey}
use rust_pinecone.Snek.{SnekPathIndex, SnekPath, valid}
use rust_pinecone.Router.State.{Router, World}
use rust_pinecone.Router.Ports.{get_peer_on_port}
use rust_pinecone.Router.SnekHop.Closest.{
  Passed, Onward, improves-Onward, Passed-self, not_improves-Passed,
}
use rust_pinecone.Router.SnekHop.{BestKey, improves, consider_entry, consider_paths}

module _ (w : World) (r : Router) (dest : PublicKey) (bootstrap : Bool) where
  -- An entry that routing does not use.
  abbrev pub Unfit : SnekPath → Type 0
  Unfit path =
      (valid w.now path ≡ ok false)
      ⊎ ((path.source ≡ 0) ⊎ ((bootstrap ≡ false) × (path.active ≡ false)))

  abbrev pub AllPaths : PublicKey → HashMap SnekPathIndex SnekPath → Type 0
  AllPaths best = All (λ e. Unfit e.1 ⊎ Passed dest bootstrap best e.0.public_key)

  -- What an entry does to the best key.
  abbrev Weighs : SnekPathIndex → SnekPath → BestKey → BestKey → Type 0
  Weighs i path best best' =
      Onward dest bootstrap best.key best'.key
      × (Unfit path ⊎ Passed dest bootstrap best'.key i.public_key)

  stale-Unfit :
      (path : SnekPath) (fresh : Bool)
      → valid w.now path ≡ ok fresh
      → (not fresh || (path.source == 0)) ≡ true
      → Unfit path
  stale-Unfit path false e h = inl e
  stale-Unfit path true e h = inr (inl ((==_iff path.source 0).0 h))

  waits-Unfit : (path : SnekPath) → (not bootstrap && not path.active) ≡ true → Unfit path
  waits-Unfit path h = inr (inr (ground arith))

  consider_entry-Weighs :
      (i : SnekPathIndex) (path : SnekPath) (best : BestKey)
      → Holds (Weighs i path best) (consider_entry dest bootstrap w r i path best)
  unfolding consider_entry
  consider_entry-Weighs i path best =
      bind_reply-Holds (Weighs i path best) (valid w.now path) _ λ fresh e.
        elim (Bool-cases (not fresh || (path.source == 0))) [
          | inl unfit ↦ rw unfit ((λ k g. g), inl (stale-Unfit path fresh e unfit))
          | inr fit ↦ rw fit (elim (Bool-cases (not bootstrap && not path.active)) [
            | inl waits ↦ rw waits ((λ k g. g), inl (waits-Unfit path waits))
            | inr ready ↦
                rw ready (elim (Bool-cases (improves dest bootstrap i.public_key best.key)) [
                  | inr worse ↦ rw worse (
                    (λ k g. g),
                    inr (not_improves-Passed dest bootstrap i.public_key best.key worse),
                  )
                  | inl better ↦ rw better (elim (Option-cases (get_peer_on_port r path.source)) [
                    | inl e ↦ rw e tt
                    | inr (p, e) ↦ rw e (
                      improves-Onward dest bootstrap i.public_key best.key better,
                      inr (Passed-self dest bootstrap i.public_key),
                    )
                  ])
                ])
          ])
        ]

  abbrev pub WeighsAll : HashMap SnekPathIndex SnekPath → BestKey → BestKey → Type 0
  WeighsAll m best best' = Onward dest bootstrap best.key best'.key × AllPaths best'.key m

  entry-Onward :
      (from to : PublicKey) (i : SnekPathIndex) (path : SnekPath)
      → Onward dest bootstrap from to
      → Unfit path ⊎ Passed dest bootstrap from i.public_key
      → Unfit path ⊎ Passed dest bootstrap to i.public_key
  entry-Onward from to i path on (inl u) = inl u
  entry-Onward from to i path on (inr g) = inr (on i.public_key g)

  pub consider_paths-WeighsAll :
      (m : HashMap SnekPathIndex SnekPath) (best : BestKey)
      → Holds (WeighsAll m best) (consider_paths dest bootstrap w r m best)
  unfolding consider_paths
  consider_paths-WeighsAll [] best = ((λ k g. g), tt)
  consider_paths-WeighsAll ((i, path) ∷ m) best =
      bind_reply-Holds (WeighsAll ((i, path) ∷ m) best)
        (consider_entry dest bootstrap w r i path best) (consider_paths dest bootstrap w r m)
        λ first e.
          (let step = Holds-ok (Weighs i path best) _ first (consider_entry-Weighs i path best) e in
            Holds-map (WeighsAll m first) (WeighsAll ((i, path) ∷ m) best) _
              (λ last g. (
                (λ k x. g.0 k (step.0 k x)),
                (entry-Onward first.key last.key i path g.0 step.1, g.1),
              ))
              (consider_paths-WeighsAll m first))
