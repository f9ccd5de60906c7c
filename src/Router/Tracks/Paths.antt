-- ===== src/Router/Tracks/Paths.antt =====
-- The handlers of path frames of src/router.rs: which paths they leave in the router.
use rust_pinecone.Prelude.{◌≡◌, Bool-cases, [], ◌∷◌, All, Option-cases, inl, inr}
use rust_pinecone.Prelude.Maps.{HashMap, insert, remove}
use rust_pinecone.Tree.{PublicKey, Port, SnekPathId}
use rust_pinecone.Frames.{SnekTeardown}
use rust_pinecone.Snek.{SnekPathIndex, SnekPath, index_Eq, index_eq}
use rust_pinecone.Router.State.{Router, World}
use rust_pinecone.Router.Ports.{get_peer_on_port}
use rust_pinecone.Router.Teardown.{
  hits, next_hops, teardown_path, send_teardown_via, send_teardown_for_rejected_path, run_teardown,
  handle_teardown,
}
use rust_pinecone.Router.Tracks.{IsTracked, Tracks, Keyed, for_each-Tracks, log_send-Tracks}

pub insert-Keyed :
    (m : HashMap SnekPathIndex SnekPath) (i : SnekPathIndex) (p : SnekPath)
    → i ≡ p.index
    → All Keyed m
    → All Keyed (insert m i p)
unfolding insert
insert-Keyed [] i p e h = (e, tt)
insert-Keyed ((j, q) ∷ m) i p e h = elim (Bool-cases (index_eq j i)) [
  | inl same ↦ rw (same, insert) (e, h.1)
  | inr other ↦ rw (other, insert) (h.0, insert-Keyed m i p e h.1)
]

remove-Keyed :
    (m : HashMap SnekPathIndex SnekPath) (i : SnekPathIndex) → All Keyed m → All Keyed (remove m i)
unfolding remove
remove-Keyed [] i h = tt
remove-Keyed ((j, q) ∷ m) i h = elim (Bool-cases (index_eq j i)) [
  | inl same ↦ rw (same, remove) (remove-Keyed m i h.1)
  | inr other ↦ rw (other, remove) (h.0, remove-Keyed m i h.1)
]

pub teardown_path-IsTracked :
    (from : Port) (index : SnekPathIndex) (r : Router)
    → IsTracked r
    → IsTracked (teardown_path from index r).1
unfolding teardown_path
teardown_path-IsTracked from index r v = elim (Bool-cases (hits from index r.ascending_path)) [
  | inl up ↦
      rw (up, teardown_path)
        (record {
          keyed = remove-Keyed r.paths index v.keyed;
          ascending = tt;
          candidate = v.candidate;
          descending = v.descending;
        })
  | inr not_up ↦ elim (Bool-cases (hits from index r.descending_path)) [
    | inl down ↦
        rw (not_up, down, teardown_path)
          (record {
            keyed = remove-Keyed r.paths index v.keyed;
            ascending = v.ascending;
            candidate = v.candidate;
            descending = tt;
          })
    | inr not_down ↦ elim (Option-cases (next_hops from index r.paths)) [
      | inl e ↦ rw (not_up, not_down, e, teardown_path) v
      | inr (hops, e) ↦
          rw (not_up, not_down, e, teardown_path)
            (record {
              keyed = remove-Keyed r.paths index v.keyed;
              ascending = v.ascending;
              candidate = v.candidate;
              descending = v.descending;
            })
    ]
  ]
]

module _ (w : World) where
  send_teardown_via-Tracks :
      (frame : SnekTeardown) (via : Port) → Tracks (send_teardown_via w frame via)
  unfolding send_teardown_via
  send_teardown_via-Tracks frame via r v = elim (Option-cases (get_peer_on_port r via)) [
    | inl e ↦ rw (e, send_teardown_via) v
    | inr (peer, e) ↦ rw (e, send_teardown_via) (log_send-Tracks w _ peer r v)
  ]

  pub send_teardown_for_rejected_path-Tracks :
      (key : PublicKey) (id : SnekPathId) (via : Port)
      → Tracks (send_teardown_for_rejected_path w key id via)
  unfolding send_teardown_for_rejected_path
  send_teardown_for_rejected_path-Tracks key id via r v = send_teardown_via-Tracks _ via r v

  pub run_teardown-Tracks :
      (from : Port) (key : PublicKey) (id : SnekPathId) → Tracks (run_teardown w from key id)
  unfolding run_teardown
  run_teardown-Tracks from key id r v =
      for_each-Tracks _ _ (send_teardown_via-Tracks _) _
        (teardown_path-IsTracked from (record { public_key = key; path_id = id }) r v)

  pub handle_teardown-Tracks :
      (from : Port) (rx : SnekTeardown) → Tracks (handle_teardown w from rx)
  unfolding handle_teardown
  handle_teardown-Tracks from rx r v = teardown_path-IsTracked from _ r v
