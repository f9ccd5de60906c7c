-- ===== src/Router/Keeps/Upkeep.antt =====
-- The tickers, the spawned tasks and the loops over lost paths of src/router.rs: they leave keys,
-- connections, ports and the stored announcements alone.
use rust_pinecone.Prelude.{
  ◌≡◌, refl, arith, Bool, true, false, ◌*◌, ltb, ◌==◌, if◌then◌else◌, [], ◌∷◌, Option, none, some,
  ok, M, and_then,
}
use rust_pinecone.Prelude.Maps.{HashMap}
use rust_pinecone.Tree.{PublicKey, Port}
use rust_pinecone.Snek.{SnekPathIndex, SnekPath, valid, elapsed, second}
use rust_pinecone.Router.State.{Router, World, Task, teardown_existing, reparenting}
use rust_pinecone.Router.Announce.{set_reparent_timer}
use rust_pinecone.Router.Bootstrap.{bootstrap_now}
use rust_pinecone.Router.Maintenance.{
  check_ascending, check_descending, check_inactive, maintain_snek, run_reparent, run_task,
  drop_transit, drop_over, reselect,
}
use rust_pinecone.Router.Keeps.{held, Keeps, and_then-held, if-held}
use rust_pinecone.Router.Keeps.Tree.{parent_selection-held}
use rust_pinecone.Router.Keeps.Paths.{
  spawn-held, teardown_path-held, bootstrap_now-held, run_teardown-held,
}

module _ (w : World) where
  check_ascending-held : (p : Option SnekPath) → Keeps (check_ascending w p)
  unfolding check_ascending
  check_ascending-held none r = refl
  check_ascending-held (some asc) r =
      and_then-held (valid w.now asc, r) _ r refl
        λ fresh s. and_then-held _ _ s (if-held fresh _ _ s refl (spawn-held _ s)) (λ _ t. refl)

  check_descending-held : (p : Option SnekPath) → Keeps (check_descending w p)
  unfolding check_descending
  check_descending-held none r = refl
  check_descending-held (some desc) r =
      and_then-held (valid w.now desc, r) _ r refl
        (λ fresh s. if-held fresh _ _ s refl (spawn-held _ s))

  check_inactive-held : (m : HashMap SnekPathIndex SnekPath) → Keeps (check_inactive w m)
  unfolding check_inactive
  check_inactive-held [] r = refl
  check_inactive-held ((index, path) ∷ rest) r =
      and_then-held _ _ r
        (if-held path.active _ _ r refl (
          and_then-held (elapsed w.now path.last_seen, r) _ r refl
            (λ age s. if-held (ltb (5 * second) age) _ _ s (spawn-held _ s) refl)))
        (λ _. check_inactive-held rest)

  abbrev check_rest : Bool → M Router (Unit {0})
  check_rest will_bootstrap s = and_then (check_descending w s.descending_path s) λ _ t.
      and_then (check_inactive w t.paths t)
        λ _ u. if will_bootstrap then bootstrap_now w u else (ok tt, u)

  check_rest-held : (will_bootstrap : Bool) → Keeps (check_rest will_bootstrap)
  check_rest-held will_bootstrap s =
      and_then-held (check_descending w s.descending_path s)
        (λ _ t.
          and_then (check_inactive w t.paths t)
            λ _ u. if will_bootstrap then bootstrap_now w u else (ok tt, u))
        s (check_descending-held s.descending_path s)
        λ _ t.
          and_then-held (check_inactive w t.paths t)
            (λ _ u. if will_bootstrap then bootstrap_now w u else (ok tt, u)) t
            (check_inactive-held t.paths t)
            λ _ u.
              if-held will_bootstrap (bootstrap_now w u) (ok tt, u) u (bootstrap_now-held w u) refl

  pub maintain_snek-held : Keeps (maintain_snek w)
  unfolding maintain_snek
  maintain_snek-held r =
      and_then-held (check_ascending w r.ascending_path r) check_rest r
        (check_ascending-held r.ascending_path r) check_rest-held

  run_reparent-held : (wait : Bool) → Keeps (run_reparent w wait)
  unfolding run_reparent set_reparent_timer
  run_reparent-held true r = spawn-held (reparenting false) (set_reparent_timer w r)
  run_reparent-held false r =
      and_then-held _ _ r (parent_selection-held w _)
        (λ changed s. if-held changed _ _ s (bootstrap_now-held w s) refl)

  pub run_task-held : (t : Task) → Keeps (run_task w t)
  unfolding run_task
  run_task-held (teardown_existing from key id) r = run_teardown-held w from key id r
  run_task-held (reparenting wait) r = run_reparent-held wait r

  pub drop_transit-held :
      (p : Port) (m : HashMap SnekPathIndex SnekPath) → Keeps (drop_transit w p m)
  unfolding drop_transit
  drop_transit-held p [] r = refl
  drop_transit-held p ((key, value) ∷ rest) r =
      and_then-held _ _ r (if-held _ _ _ r (spawn-held _ r) refl) (λ _. drop_transit-held p rest)

  pub drop_over-held :
      (p : Port) (a : Option SnekPath) (r : Router) → held (drop_over w p a r).1 ≡ held r
  unfolding drop_over
  drop_over-held p none r = refl
  drop_over-held p (some path) r = ground (arith, teardown_path-held 0 path.index r)

  pub reselect-held : (peer : PublicKey) (lost : Bool) → Keeps (reselect w peer lost)
  unfolding reselect
  reselect-held peer lost r =
      if-held (r.parent == peer) _ _ r (if-held lost _ _ r refl (parent_selection-held w r)) refl
