-- ===== src/Router/Tracks/Handlers.antt =====
-- The handlers of bootstraps and setups of src/router.rs: which paths they leave in the router.
use rust_pinecone.Prelude.{
  ◌≡◌, refl, ap, sym, subst, not, ◌&&◌, Bool-cases, ◌==◌, if◌then◌else◌, [], ◌∷◌, Option, none,
  some, Option-cases, inl, inr, Reply, ok, err, panic, M, and_then,
}
use rust_pinecone.Prelude.Maps.{HashMap}
use rust_pinecone.Tree.{PublicKey, Port, root_eq}
use rust_pinecone.Frames.{SnekBootstrap, SnekBootstrapAck, SnekSetup, snek_setup}
use rust_pinecone.Snek.{SnekPathIndex, SnekPath, index_Eq}
use rust_pinecone.Router.State.{Router, World, spawn, teardown_existing, send, log_error}
use rust_pinecone.Router.Ports.{port, get_peer_on_port}
use rust_pinecone.Router.Announce.{current_root}
use rust_pinecone.Router.Bootstrap.{
  bootstrap_now, has_root, handle_bootstrap, drop_old, install, install_path, new_path, setup_for,
  set_up, accepts_ack, handle_bootstrap_ack,
}
use rust_pinecone.Router.Setup.{
  index_of, refuse_other_root, drop_previous, send_setup_ack, install_descending, descending_entry,
  accepts_setup, setup_arrived,
}
use rust_pinecone.Router.TreeHop.{next_tree_hop}
use rust_pinecone.Router.Tracks.{
  trail, HasTrail, IsTracked, Tracks, and_then-IsTracked, if-IsTracked, on_hop-Tracks,
  log_send-Tracks, spawn-Tracks,
}
use rust_pinecone.Router.Tracks.Paths.{insert-Keyed, send_teardown_for_rejected_path-Tracks}

module _ (w : World) where
  pub bootstrap_now-Tracks : Tracks (bootstrap_now w)
  unfolding bootstrap_now
  bootstrap_now-Tracks r v = if-IsTracked (r.parent == r.public_key) _ _ v (
      if-IsTracked (has_root r.ascending_path (current_root w r)) _ _ v
        (on_hop-Tracks _ _ (λ peer. log_send-Tracks w _ peer) r v))

  pub handle_bootstrap-Tracks : (frame : SnekBootstrap) → Tracks (handle_bootstrap w frame)
  unfolding handle_bootstrap
  handle_bootstrap-Tracks frame r v =
      if-IsTracked (root_eq (current_root w r) frame.root) _ _
        (on_hop-Tracks _ _ (λ peer. log_send-Tracks w _ peer) r v) v

  -- The teardowns are only queued.
  drop_old-state :
      (key : PublicKey) (m : HashMap SnekPathIndex SnekPath) (r : Router)
      → trail (drop_old w key m r).1 ≡ trail r
  unfolding drop_old spawn
  drop_old-state key [] r = refl
  drop_old-state key ((index, entry) ∷ rest) r =
      elim (Bool-cases ((entry.source == 0) && not (index.public_key == key))) [
        | inl old ↦
            rw (old, drop_old)
              (drop_old-state key rest
                (spawn (teardown_existing 0 index.public_key index.path_id) r).1)
        | inr other ↦ rw (other, drop_old) (drop_old-state key rest r)
      ]

  install_path-Tracks :
      (ack : SnekBootstrapAck) (peer : PublicKey) → Tracks (install_path w ack peer)
  unfolding install_path install new_path
  install_path-Tracks ack peer r v = elim (Option-cases (port r peer)) [
    | inl e ↦ rw (e, install_path) v
    | inr (p, e) ↦
        rw (e, install_path)
          (go p (drop_old w ack.source_key r.paths r) (drop_old-state ack.source_key r.paths r))
  ]
    where
      go :
          (p : Port) (x : Reply (Unit {0}) × Router)
          → trail x.1 ≡ trail r
          → IsTracked (and_then x (λ _. install w (new_path w ack p r))).1
      go p (ok u, s) same =
          let t = subst HasTrail (sym same) v in
          record {
            keyed =
                insert-Keyed s.paths (new_path w ack p r).index (new_path w ack p r) refl t.keyed;
            ascending = t.ascending;
            candidate = (ap (λ (x : Router). x.public_key) (sym same), refl, refl);
            descending = t.descending;
          }
      go p (err x, s) same = subst HasTrail (sym same) v
      go p (panic, s) same = subst HasTrail (sym same) v

  abbrev set_up_over : SnekBootstrapAck → SnekSetup → PublicKey → M Router (Unit {0})
  set_up_over ack setup peer s =
      if s.public_key == peer
      then (ok tt, s)
      else and_then (log_error (send w (snek_setup setup) peer s)) (λ _. install_path w ack peer)

  set_up_over-Tracks :
      (ack : SnekBootstrapAck) (setup : SnekSetup) (peer : PublicKey)
      → Tracks (set_up_over ack setup peer)
  set_up_over-Tracks ack setup peer s u =
      if-IsTracked (s.public_key == peer) (ok tt, s)
        (and_then (log_error (send w (snek_setup setup) peer s)) (λ _. install_path w ack peer)) u
        (and_then-IsTracked (log_error (send w (snek_setup setup) peer s))
          (λ _. install_path w ack peer) (log_send-Tracks w (snek_setup setup) peer s u)
          (λ _. install_path-Tracks ack peer))

  set_up-Tracks : (ack : SnekBootstrapAck) → Tracks (set_up w ack)
  unfolding set_up
  set_up-Tracks ack r v =
      on_hop-Tracks (next_tree_hop w r (setup_for w ack r).destination r.public_key)
        (set_up_over ack (setup_for w ack r)) (set_up_over-Tracks ack (setup_for w ack r)) r v

  pub handle_bootstrap_ack-Tracks : (ack : SnekBootstrapAck) → Tracks (handle_bootstrap_ack w ack)
  unfolding handle_bootstrap_ack
  handle_bootstrap_ack-Tracks ack r v =
      and_then-IsTracked (accepts_ack w ack r, r) _ v
        (λ update s u. if-IsTracked update _ _ (set_up-Tracks ack s u) u)

  pub refuse_other_root-Tracks :
      (from : Port) (rx : SnekSetup) → Tracks (refuse_other_root w from rx)
  unfolding refuse_other_root
  refuse_other_root-Tracks from rx r v =
      if-IsTracked (root_eq (current_root w r) rx.root) _ _ v
        (send_teardown_for_rejected_path-Tracks w rx.source_key rx.path_id from r v)

  drop_previous-Tracks : (p : Option SnekPath) → Tracks (drop_previous w p)
  unfolding drop_previous
  drop_previous-Tracks none r v = v
  drop_previous-Tracks (some p) r v = spawn-Tracks _ r v

  send_setup_ack-Tracks : (rx : SnekSetup) (from : Port) → Tracks (send_setup_ack w rx from)
  unfolding send_setup_ack
  send_setup_ack-Tracks rx from r v = elim (Option-cases (get_peer_on_port r from)) [
    | inl e ↦ rw (e, send_setup_ack) v
    | inr (peer, e) ↦ rw (e, send_setup_ack) (log_send-Tracks w _ peer r v)
  ]

  install_descending-IsTracked :
      (from : Port) (rx : SnekSetup) (r : Router)
      → IsTracked r
      → IsTracked (install_descending w (descending_entry w rx from) r)
  unfolding install_descending descending_entry
  install_descending-IsTracked from rx r v = record {
    keyed = insert-Keyed r.paths (index_of rx) (descending_entry w rx from) refl v.keyed;
    ascending = v.ascending;
    candidate = v.candidate;
    descending = (refl, refl);
  }

  pub setup_arrived-Tracks : (from : Port) (rx : SnekSetup) → Tracks (setup_arrived w from rx)
  unfolding setup_arrived
  setup_arrived-Tracks from rx r v =
      and_then-IsTracked (accepts_setup w rx r, r) _ v
        λ update s u.
          if-IsTracked update _ _
            (and_then-IsTracked (drop_previous w s.descending_path s)
              (λ _ t.
                send_setup_ack w rx from (install_descending w (descending_entry w rx from) t))
              (drop_previous-Tracks s.descending_path s u)
              (λ _ t x.
                send_setup_ack-Tracks rx from (install_descending w (descending_entry w rx from) t)
                  (install_descending-IsTracked from rx t x)))
            (send_teardown_for_rejected_path-Tracks w _ _ from s u)
