-- ===== src/Router/Teardown/Effect.antt =====
-- `teardown_path` of src/router.rs: what it changes.
use rust_pinecone.Prelude.{
  ◌≡◌, ◌≢◌, ◌⊎◌, inl, inr, refl, arith, true, List, [], ◌∷◌, Option, none, some, if◌then◌else◌,
  Bool-cases, Option-cases,
}
use rust_pinecone.Prelude.Maps
use rust_pinecone.Prelude.Maps.{HashMap, get-remove}
use rust_pinecone.Tree.{Port}
use rust_pinecone.Snek.{SnekPathIndex, SnekPath, index_eq, index_Eq}
use rust_pinecone.Router.State.{Router}
use rust_pinecone.Router.Teardown.{hits, next_hops, destination_of, teardown_path}

-- One index is gone from the routing table, and every other entry is as before.
abbrev pub Without : SnekPathIndex → Router → Router → Type 0
Without index r r' =
    (j : SnekPathIndex)
    → Maps.get r'.paths j ≡ (if index_eq index j then none else Maps.get r.paths j)

-- The path is kept, or it is gone and was the one of this index, torn down from its destination or
-- by the router itself.
abbrev pub KeptOr : Port → SnekPathIndex → Option SnekPath → Option SnekPath → Type 0
KeptOr from index p p' =
    (p' ≡ p)
    ⊎ ((p' ≡ none)
        × ((q : SnekPath) × (p ≡ some q)
            × (q.index ≡ index)
            × ((from ≡ q.destination) ⊎ (from ≡ 0))))

hits-path :
    (from : Port) (index : SnekPathIndex) (p : Option SnekPath)
    → hits from index p ≡ true
    → (q : SnekPath) × (p ≡ some q) × (q.index ≡ index) × ((from ≡ q.destination) ⊎ (from ≡ 0))
unfolding hits
hits-path from index none h = absurd (cc h)
hits-path from index (some q) h = (q, refl, ground arith, ground arith)

next_hops-ne_nil :
    (from : Port) (index : SnekPathIndex) (m : HashMap SnekPathIndex SnekPath)
    → next_hops from index m ≢ some []
unfolding next_hops
next_hops-ne_nil from index [] = λ e. cc
next_hops-ne_nil from index ((k, v) ∷ rest) = ground (arith, next_hops-ne_nil from index rest)

destination_of-ne_nil :
    (from : Port) (index : SnekPathIndex) (p : Option SnekPath)
    → hits from index p ≡ true
    → destination_of p ≢ []
unfolding hits
destination_of-ne_nil from index none h = cc
destination_of-ne_nil from index (some p) h = λ e. cc

-- A teardown either returns no port and leaves the router as it is; or it returns some port,
-- exactly the entry of its index leaves the routing table, and each of the ascending and the
-- descending path stays, or is cleared and was the one of this index, torn down from its
-- destination or by the router itself.
pub teardown_path_effect :
    (from : Port) (index : SnekPathIndex) (r : Router)
    → (teardown_path from index r ≡ ([], r))
      ⊎ (((teardown_path from index r).0 ≢ [])
          × Without index r (teardown_path from index r).1
          × KeptOr from index r.ascending_path (teardown_path from index r).1.ascending_path
          × KeptOr from index r.descending_path (teardown_path from index r).1.descending_path)
unfolding teardown_path
teardown_path_effect from index r = elim (Bool-cases (hits from index r.ascending_path)) [
  | inl asc ↦
      rw (asc, teardown_path)
        (inr (
          destination_of-ne_nil from index r.ascending_path asc,
          λ j. get-remove r.paths index j,
          inr (refl, hits-path from index r.ascending_path asc),
          inl refl,
        ))
  | inr no_asc ↦
      rw (no_asc, teardown_path)
        (elim (Bool-cases (hits from index r.descending_path)) [
          | inl desc ↦ rw desc (
              inr (
                destination_of-ne_nil from index r.descending_path desc,
                λ j. get-remove r.paths index j,
                inl refl,
                inr (refl, hits-path from index r.descending_path desc),
              ))
          | inr no_desc ↦ rw no_desc (elim (Option-cases (next_hops from index r.paths)) [
            | inl e ↦ rw e (inl refl)
            | inr (hops, e) ↦
                rw e (inr (hops-ne_nil hops e, λ j. get-remove r.paths index j, inl refl, inl refl))
          ])
        ])
]
  where
    hops-ne_nil : (hops : List Port) → next_hops from index r.paths ≡ some hops → hops ≢ []
    hops-ne_nil hops e nil = next_hops-ne_nil from index r.paths (cc)
