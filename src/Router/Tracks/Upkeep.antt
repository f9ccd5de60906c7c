-- ===== src/Router/Tracks/Upkeep.antt =====
-- The tickers, the spawned tasks and `disconnect_peer` of src/router.rs: which paths they leave.
use rust_pinecone.Prelude.{
  ◌*◌, Bool, true, false, Bool-cases, ltb, ◌==◌, if◌then◌else◌, [], ◌∷◌, Option, none, some, ok, M,
  and_then, inl, inr,
}
use rust_pinecone.Prelude.Maps.{HashMap, nat_eq}
use rust_pinecone.Tree.{PublicKey, Port}
use rust_pinecone.Snek.{SnekPathIndex, SnekPath, valid, elapsed, second}
use rust_pinecone.Router.State.{Router, World, Task, teardown_existing, reparenting}
use rust_pinecone.Router.Announce.{set_reparent_timer}
use rust_pinecone.Router.Ports.{port, peers}
use rust_pinecone.Router.ParentSelection.{parent_selection}
use rust_pinecone.Router.Bootstrap.{bootstrap_now}
use rust_pinecone.Router.Maintenance.{
  check_ascending, check_descending, check_inactive, maintain_snek, run_reparent, run_task,
  drop_transit, drop_over, leave_port, forget_peer, reselect, disconnect_peer, stop,
}
use rust_pinecone.Router.Tracks.{
  IsTracked, Tracks, and_then-IsTracked, if-IsTracked, for_each-Tracks, spawn-Tracks,
}
use rust_pinecone.Router.Tracks.Tree.{parent_selection-Tracks}
use rust_pinecone.Router.Tracks.Paths.{teardown_path-IsTracked, run_teardown-Tracks}
use rust_pinecone.Router.Tracks.Handlers.{bootstrap_now-Tracks}

module _ (w : World) where
  check_ascending-Tracks : (p : Option SnekPath) → Tracks (check_ascending w p)
  unfolding check_ascending
  check_ascending-Tracks none r v = v
  check_ascending-Tracks (some asc) r v =
      and_then-IsTracked (valid w.now asc, r) _ v
        λ fresh s u.
          and_then-IsTracked _ _ (if-IsTracked fresh _ _ u (spawn-Tracks _ s u)) (λ _ t x. x)

  check_descending-Tracks : (p : Option SnekPath) → Tracks (check_descending w p)
  unfolding check_descending
  check_descending-Tracks none r v = v
  check_descending-Tracks (some desc) r v =
      and_then-IsTracked (valid w.now desc, r) _ v
        (λ fresh s u. if-IsTracked fresh _ _ u (spawn-Tracks _ s u))

  check_inactive-Tracks : (m : HashMap SnekPathIndex SnekPath) → Tracks (check_inactive w m)
  unfolding check_inactive
  check_inactive-Tracks [] r v = v
  check_inactive-Tracks ((index, path) ∷ rest) r v =
      and_then-IsTracked _ _
        (if-IsTracked path.active _ _ v (
          and_then-IsTracked (elapsed w.now path.last_seen, r) _ v
            (λ age s u. if-IsTracked (ltb (5 * second) age) _ _ (spawn-Tracks _ s u) u)))
        (λ _. check_inactive-Tracks rest)

  abbrev bootstrap_if : Bool → M Router (Unit {0})
  bootstrap_if b u = if b then bootstrap_now w u else (ok tt, u)

  bootstrap_if-Tracks : (b : Bool) → Tracks (bootstrap_if b)
  bootstrap_if-Tracks b u x =
      if-IsTracked b (bootstrap_now w u) (ok tt, u) (bootstrap_now-Tracks w u x) x

  abbrev check_rest : Bool → M Router (Unit {0})
  check_rest b s =
      and_then (check_descending w s.descending_path s)
        λ _ t. and_then (check_inactive w t.paths t) λ _. bootstrap_if b

  check_rest-Tracks : (b : Bool) → Tracks (check_rest b)
  check_rest-Tracks b s u =
      and_then-IsTracked (check_descending w s.descending_path s)
        (λ _ t. and_then (check_inactive w t.paths t) λ _. bootstrap_if b)
        (check_descending-Tracks s.descending_path s u)
        λ _ t x.
          and_then-IsTracked (check_inactive w t.paths t) (λ _. bootstrap_if b)
            (check_inactive-Tracks t.paths t x) (λ _. bootstrap_if-Tracks b)

  pub maintain_snek-Tracks : Tracks (maintain_snek w)
  unfolding maintain_snek
  maintain_snek-Tracks r v =
      and_then-IsTracked (check_ascending w r.ascending_path r) check_rest
        (check_ascending-Tracks r.ascending_path r v) check_rest-Tracks

  run_reparent-Tracks : (wait : Bool) → Tracks (run_reparent w wait)
  unfolding run_reparent set_reparent_timer
  run_reparent-Tracks true r v = spawn-Tracks (reparenting false) (set_reparent_timer w r) v
  run_reparent-Tracks false r v =
      and_then-IsTracked (parent_selection w r) bootstrap_if (parent_selection-Tracks w r v)
        bootstrap_if-Tracks

  pub run_task-Tracks : (t : Task) → Tracks (run_task w t)
  unfolding run_task
  run_task-Tracks (teardown_existing from key id) r v = run_teardown-Tracks w from key id r v
  run_task-Tracks (reparenting wait) r v = run_reparent-Tracks wait r v

  drop_transit-Tracks :
      (p : Port) (m : HashMap SnekPathIndex SnekPath) → Tracks (drop_transit w p m)
  unfolding drop_transit
  drop_transit-Tracks p [] r v = v
  drop_transit-Tracks p ((key, value) ∷ rest) r v =
      and_then-IsTracked _ _ (if-IsTracked _ _ _ (spawn-Tracks _ r v) v)
        (λ _. drop_transit-Tracks p rest)

  drop_over-IsTracked :
      (p : Port) (a : Option SnekPath) (r : Router) → IsTracked r → IsTracked (drop_over w p a r).1
  unfolding drop_over
  drop_over-IsTracked p none r v = v
  drop_over-IsTracked p (some path) r v = elim (Bool-cases (path.destination == p)) [
    | inl over ↦ rw (over, drop_over) (teardown_path-IsTracked 0 path.index r v)
    | inr other ↦ rw (other, drop_over) v
  ]

  leave_port-Tracks : (p : Option Port) → Tracks (leave_port w p)
  unfolding leave_port
  leave_port-Tracks none r v = v
  leave_port-Tracks (some p) r v =
      and_then-IsTracked (drop_transit w p r.paths r) _ (drop_transit-Tracks p r.paths r v) λ _ s u.
        (let t = (drop_over w p s.ascending_path s).1 in
          drop_over-IsTracked p t.descending_path t (drop_over-IsTracked p s.ascending_path s u))

  reselect-Tracks : (peer : PublicKey) (lost : Bool) → Tracks (reselect w peer lost)
  unfolding reselect
  reselect-Tracks peer lost r v =
      if-IsTracked (r.parent == peer) _ _ (if-IsTracked lost _ _ v (parent_selection-Tracks w r v))
        v

  pub disconnect_peer-Tracks : (peer : PublicKey) → Tracks (disconnect_peer w peer)
  unfolding disconnect_peer forget_peer
  disconnect_peer-Tracks peer r v =
      and_then-IsTracked (leave_port w (port r peer) r)
        (λ lost s. and_then (reselect w peer lost (forget_peer w peer s)) bootstrap_if)
        (leave_port-Tracks (port r peer) r v)
        λ lost s u.
          and_then-IsTracked (reselect w peer lost (forget_peer w peer s)) bootstrap_if
            (reselect-Tracks peer lost (forget_peer w peer s) u) bootstrap_if-Tracks

  pub stop-Tracks : Tracks (stop w)
  unfolding stop
  stop-Tracks r v =
      for_each-Tracks (disconnect_peer w) (peers r) disconnect_peer-Tracks
        (record r { running = false }) v
