-- ===== src/Router/SnekHop/Direct.antt =====
-- `next_snek_hop` of src/router.rs: a direct peer is reached as such, unless a path leads to it.
use mathlib.Core.List.{Memᴰ}
use rust_pinecone.Prelude.{
  ◌≡◌, ◌≢◌, ◌⊎◌, inl, inr, refl, sym, ap, ◌∙◌, Bool, not, ◌&&◌, ◌||◌, [], ◌∷◌, List, Option, some,
  ◌==◌, ==_iff, Bool-cases, Option-cases, All, Holds, Holds-ok, bind_reply-Holds,
}
use rust_pinecone.Prelude.Maps.{HashMap}
use rust_pinecone.Tree.{PublicKey}
use rust_pinecone.Snek.{SnekPathIndex, SnekPath, valid}
use rust_pinecone.Router.State.{Router, World}
use rust_pinecone.Router.Ports.{peers, get_peer_on_port}
use rust_pinecone.Router.SnekHop.Leads.{Fit, tests-Fit}
use rust_pinecone.Router.SnekHop.Closest.{prefer_peers_key}
use rust_pinecone.Router.SnekHop.{BestKey, improves, prefer_peers, consider_entry, consider_paths}

module _ (w : World) (r : Router) (dest : PublicKey) (bootstrap : Bool) where
  -- The hop is the peer on the port that a path to the key came by.
  abbrev pub OverPath : Option PublicKey → PublicKey → Type 0
  OverPath hop key =
      (i : SnekPathIndex) × (path : SnekPath) × (p : PublicKey) × Memᴰ (i, path) r.paths
      × Fit w r bootstrap path
      × (get_peer_on_port r path.source ≡ some p)
      × (hop ≡ some p)
      × (i.public_key ≡ key)

  -- The hop is the peer with the key, if one has it.
  abbrev pub Direct : Option PublicKey → PublicKey → Type 0
  Direct hop key = All (λ p. (p ≢ key) ⊎ (hop ≡ some p)) (peers r) ⊎ OverPath hop key

  abbrev IsDirect : BestKey → Type 0
  IsDirect best = Direct best.peer best.key

  prefer_peers_peer :
      (ps : List PublicKey) (best : BestKey)
      → best.peer ≡ some best.key
      → (prefer_peers dest bootstrap ps best).peer ≡ some best.key
  unfolding prefer_peers
  prefer_peers_peer [] best h = h
  prefer_peers_peer (p ∷ ps) best h = elim (Bool-cases (best.key == p)) [
    | inl same ↦
        rw (same, prefer_peers)
          (prefer_peers_peer ps (record { key = p; peer = some p }) refl
            ∙ ap some (sym ((==_iff best.key p).0 same)))
    | inr other ↦ rw (other, prefer_peers) (prefer_peers_peer ps best h)
  ]

  prefer_peers-All :
      (ps : List PublicKey) (best : BestKey) (key : PublicKey) (hop : Option PublicKey)
      → best.key ≡ key
      → (prefer_peers dest bootstrap ps best).peer ≡ hop
      → All (λ p. (p ≢ key) ⊎ (hop ≡ some p)) ps
  unfolding prefer_peers
  prefer_peers-All [] best key hop at h = tt
  prefer_peers-All (p ∷ ps) best key hop at h = elim (Bool-cases (best.key == p)) [
    | inl same ↦
        let met : BestKey = record { key = p; peer = some p } in
        let h' : (prefer_peers dest bootstrap ps met).peer ≡ hop = rw (same, prefer_peers) at h in
        let p_at : p ≡ key = sym ((==_iff best.key p).0 same) ∙ at in
        (inr (sym h' ∙ prefer_peers_peer ps met refl), prefer_peers-All ps met key hop p_at h')
    | inr other ↦
        let h' : (prefer_peers dest bootstrap ps best).peer ≡ hop = rw (other, prefer_peers) at h in
        let differ : p ≢ key = λ e. cc ((==_iff best.key p).1 (at ∙ sym e), other) in
        (inl differ, prefer_peers-All ps best key hop at h')
  ]

  pub prefer_peers-IsDirect :
      (best : BestKey) → IsDirect (prefer_peers dest bootstrap (peers r) best)
  prefer_peers-IsDirect best =
      let met = prefer_peers dest bootstrap (peers r) best in
      inl (
        prefer_peers-All (peers r) best met.key met.peer
          (sym (prefer_peers_key dest bootstrap (peers r) best)) refl)

  consider_entry-IsDirect :
      (i : SnekPathIndex) (path : SnekPath) (best : BestKey)
      → Memᴰ (i, path) r.paths
      → IsDirect best
      → Holds IsDirect (consider_entry dest bootstrap w r i path best)
  unfolding consider_entry
  consider_entry-IsDirect i path best m g =
      bind_reply-Holds IsDirect (valid w.now path) _ λ fresh v.
        elim (Bool-cases (not fresh || (path.source == 0))) [
          | inl unfit ↦ rw unfit g
          | inr fit ↦ rw fit (elim (Bool-cases (not bootstrap && not path.active)) [
            | inl waits ↦ rw waits g
            | inr ready ↦
                rw ready (elim (Bool-cases (improves dest bootstrap i.public_key best.key)) [
                  | inr worse ↦ rw worse g
                  | inl better ↦ rw better (elim (Option-cases (get_peer_on_port r path.source)) [
                    | inl e ↦ rw e tt
                    | inr (p, e) ↦ rw e (
                        inr (
                          i,
                          path,
                          p,
                          m,
                          tests-Fit w r bootstrap path fresh v fit ready,
                          e,
                          refl,
                          refl,
                        ))
                  ])
                ])
          ])
        ]

  pub consider_paths-IsDirect :
      (m : HashMap SnekPathIndex SnekPath) (best : BestKey)
      → ((e : SnekPathIndex × SnekPath) → Memᴰ e m → Memᴰ e r.paths)
      → IsDirect best
      → Holds IsDirect (consider_paths dest bootstrap w r m best)
  unfolding consider_paths
  consider_paths-IsDirect [] best inc g = g
  consider_paths-IsDirect ((i, path) ∷ m) best inc g =
      bind_reply-Holds IsDirect (consider_entry dest bootstrap w r i path best) _ λ best' e.
        consider_paths-IsDirect m best' (λ x k. inc x (Memᴰ.tail k))
          (Holds-ok IsDirect _ best'
            (consider_entry-IsDirect i path best (inc (i, path) (Memᴰ.head refl)) g) e)
