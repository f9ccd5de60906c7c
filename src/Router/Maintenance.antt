-- ===== src/Router/Maintenance.antt =====
-- src/router.rs, `maintain_snek`, `disconnect_peer`, `stop`, and the tasks that methods spawn.
pub mod Disconnect
pub mod DeadParent
use rust_pinecone.Prelude.{
  ◌*◌, Bool, true, false, not, ◌&&◌, ◌||◌, [], ◌∷◌, Option, none, some, ltb, ◌==◌, if◌then◌else◌,
  ok, M, and_then,
}
use rust_pinecone.Prelude.Maps
use rust_pinecone.Prelude.Maps.{HashMap, nat_eq}
use rust_pinecone.Tree.{PublicKey, Port, root_eq}
use rust_pinecone.Snek.{SnekPathIndex, SnekPath, elapsed, valid, second}
use rust_pinecone.Router.State.{
  Router, World, Task, teardown_existing, reparenting, spawn, for_each,
}
use rust_pinecone.Router.Ports.{port, peers}
use rust_pinecone.Router.Announce.{current_root, set_reparent_timer}
use rust_pinecone.Router.ParentSelection.{parent_selection}
use rust_pinecone.Router.Teardown.{teardown_path, send_teardown_for_existing_path, run_teardown}
use rust_pinecone.Router.Bootstrap.{bootstrap_now}

module _ (w : World) where
  abbrev tear_down : SnekPathIndex → M Router (Unit {0})
  tear_down i = send_teardown_for_existing_path 0 i.public_key i.path_id

  unfoldable pub can_bootstrap : Router → Bool
  can_bootstrap r =
      not (r.parent == r.public_key) && not ((current_root w r).public_key == r.public_key)

  -- Whether the ascending path, or its absence, calls for a bootstrap.
  unfoldable pub check_ascending : Option SnekPath → M Router Bool
  check_ascending none r = (ok (can_bootstrap r), r)
  check_ascending (some asc) r =
      and_then (valid w.now asc, r)
        λ fresh s. and_then (if fresh then (ok tt, s) else tear_down asc.index s) λ _ t.
          (ok ((not fresh || not (root_eq asc.root (current_root w r))) && can_bootstrap r), t)

  unfoldable pub check_descending : Option SnekPath → M Router (Unit {0})
  check_descending none r = (ok tt, r)
  check_descending (some desc) r =
      and_then (valid w.now desc, r) λ fresh s. if fresh then (ok tt, s) else tear_down desc.index s

  -- Entries that no acknowledgement has activated within 5 seconds.
  unfoldable pub check_inactive : HashMap SnekPathIndex SnekPath → M Router (Unit {0})
  check_inactive [] r = (ok tt, r)
  check_inactive ((index, path) ∷ rest) r =
      and_then
        (if path.active
          then (ok tt, r)
          else and_then (elapsed w.now path.last_seen, r)
              λ age s. if ltb (5 * second) age then tear_down index s else (ok tt, s))
        λ _. check_inactive rest

  unfoldable pub maintain_snek : M Router (Unit {0})
  maintain_snek r = and_then (check_ascending r.ascending_path r) λ will_bootstrap s.
      and_then (check_descending s.descending_path s) λ _ t.
        and_then (check_inactive t.paths t)
          λ _ u. if will_bootstrap then bootstrap_now w u else (ok tt, u)

  -- `reparent`, once it is spawned: up to the sleep, which other rounds may fill, and after it.
  unfoldable pub run_reparent : Bool → M Router (Unit {0})
  run_reparent true r = spawn (reparenting false) (set_reparent_timer w r)
  run_reparent false r =
      and_then (parent_selection w r) λ changed s. if changed then bootstrap_now w s else (ok tt, s)

  unfoldable pub run_task : Task → M Router (Unit {0})
  run_task (teardown_existing from key id) r = run_teardown w from key id r
  run_task (reparenting wait) r = run_reparent wait r

  -- Teardowns for the entries that passed over the dead port.
  unfoldable pub drop_transit : Port → HashMap SnekPathIndex SnekPath → M Router (Unit {0})
  drop_transit p [] r = (ok tt, r)
  drop_transit p ((key, value) ∷ rest) r =
      and_then
        (if (value.destination == p) || (value.source == p)
          then send_teardown_for_existing_path p key.public_key key.path_id r
          else (ok tt, r))
        λ _. drop_transit p rest

  -- A path whose destination is the dead port is torn down; `true` says that it was.
  unfoldable pub drop_over : Port → Option SnekPath → Router → Bool × Router
  drop_over p none r = (false, r)
  drop_over p (some path) r =
      if path.destination == p then (true, (teardown_path 0 path.index r).1) else (false, r)

  unfoldable pub leave_port : Option Port → M Router Bool
  leave_port none r = (ok false, r)
  leave_port (some p) r = and_then (drop_transit p r.paths r) λ _ s.
      (let (lost, t) = drop_over p s.ascending_path s in
        let (_lost, u) = drop_over p t.descending_path t in
        (ok lost, record u { ports = Maps.remove u.ports p }))

  unfoldable pub forget_peer : PublicKey → Router → Router
  forget_peer peer r = record r {
    announcements = Maps.remove r.announcements peer;
    upload_connections = Maps.remove r.upload_connections peer;
    download_connections = Maps.remove r.download_connections peer;
  }

  unfoldable pub reselect : PublicKey → Bool → M Router Bool
  reselect peer bootstrap r =
      if r.parent == peer
      then if bootstrap then (ok true, r) else parent_selection w r
      else (ok bootstrap, r)

  unfoldable pub disconnect_peer : PublicKey → M Router (Unit {0})
  disconnect_peer peer r = and_then (leave_port (port r peer) r) λ lost s.
      and_then (reselect peer lost (forget_peer peer s))
        λ bootstrap t. if bootstrap then bootstrap_now w t else (ok tt, t)

  unfoldable pub stop : M Router (Unit {0})
  stop r = for_each disconnect_peer (peers r) (record r { running = false })
