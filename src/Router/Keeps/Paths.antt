-- ===== src/Router/Keeps/Paths.antt =====
-- The methods of src/router.rs that keep paths: they leave keys, connections, ports and the stored
-- announcements alone.
use rust_pinecone.Prelude.{
  ◌≡◌, refl, ◌∙◌, arith, true, Bool-cases, ◌==◌, [], ◌∷◌, Option, none, some, Option-cases, inl,
  inr, ok, and_then,
}
use rust_pinecone.Prelude.Maps
use rust_pinecone.Prelude.Maps.{HashMap}
use rust_pinecone.Tree.{PublicKey, Port, SnekPathId, root_eq}
use rust_pinecone.Frames.{SnekBootstrap, SnekBootstrapAck, SnekSetup, SnekSetupAck, SnekTeardown}
use rust_pinecone.Snek.{SnekPathIndex, SnekPath, index_Eq}
use rust_pinecone.Router.State.{Router, World, spawn, Task}
use rust_pinecone.Router.Ports.{port, get_peer_on_port}
use rust_pinecone.Router.Announce.{current_root}
use rust_pinecone.Router.Teardown.{
  teardown_path, send_teardown_via, send_teardown_for_rejected_path, run_teardown, handle_teardown,
}
use rust_pinecone.Router.Bootstrap.{
  bootstrap_now, has_root, handle_bootstrap, drop_old, install, install_path, set_up, accepts_ack,
  handle_bootstrap_ack,
}
use rust_pinecone.Router.Setup.{
  index_of, refuse_other_root, drop_previous, send_setup_ack, install_descending, accepts_setup,
  setup_arrived, setup_transit, handle_setup, awaits, forward_ack, promote, activate,
  handle_setup_ack,
}
use rust_pinecone.Router.Keeps.{
  held, Keeps, and_then-held, if-held, for_each-held, on_hop-held, log_send-held,
}

pub spawn-held : (t : Task) → Keeps (spawn t)
unfolding spawn
spawn-held t r = refl

pub teardown_path-held :
    (from : Port) (index : SnekPathIndex) (r : Router)
    → held (teardown_path from index r).1 ≡ held r
unfolding teardown_path
teardown_path-held from index r = ground arith

module _ (w : World) where
  send_teardown_via-held :
      (frame : SnekTeardown) (via : Port) → Keeps (send_teardown_via w frame via)
  unfolding send_teardown_via
  send_teardown_via-held frame via r = elim (Option-cases (get_peer_on_port r via)) [
    | inl e ↦ rw (e, send_teardown_via) refl
    | inr (peer, e) ↦ rw (e, send_teardown_via) (log_send-held w _ peer r)
  ]

  pub send_teardown_for_rejected_path-held :
      (key : PublicKey) (id : SnekPathId) (via : Port)
      → Keeps (send_teardown_for_rejected_path w key id via)
  unfolding send_teardown_for_rejected_path
  send_teardown_for_rejected_path-held key id via r = send_teardown_via-held _ via r

  pub run_teardown-held :
      (from : Port) (key : PublicKey) (id : SnekPathId) → Keeps (run_teardown w from key id)
  unfolding run_teardown
  run_teardown-held from key id r =
      for_each-held _ _ (send_teardown_via-held _) _ ∙ teardown_path-held from _ r

  pub handle_teardown-held : (from : Port) (rx : SnekTeardown) → Keeps (handle_teardown w from rx)
  unfolding handle_teardown
  handle_teardown-held from rx r = teardown_path-held from _ r

  pub bootstrap_now-held : Keeps (bootstrap_now w)
  unfolding bootstrap_now
  bootstrap_now-held r = if-held (r.parent == r.public_key) _ _ r refl (
      if-held (has_root r.ascending_path (current_root w r)) _ _ r refl
        (on_hop-held _ _ (λ peer. log_send-held w _ peer) r))

  pub handle_bootstrap-held : (frame : SnekBootstrap) → Keeps (handle_bootstrap w frame)
  unfolding handle_bootstrap
  handle_bootstrap-held frame r =
      if-held (root_eq (current_root w r) frame.root) _ _ r
        (on_hop-held _ _ (λ peer. log_send-held w _ peer) r) refl

  drop_old-held : (key : PublicKey) (m : HashMap SnekPathIndex SnekPath) → Keeps (drop_old w key m)
  unfolding drop_old
  drop_old-held key [] r = refl
  drop_old-held key ((index, entry) ∷ rest) r =
      and_then-held _ _ r (if-held _ _ _ r (spawn-held _ r) refl) (λ _. drop_old-held key rest)

  install_path-held : (ack : SnekBootstrapAck) (peer : PublicKey) → Keeps (install_path w ack peer)
  unfolding install_path install
  install_path-held ack peer r = elim (Option-cases (port r peer)) [
    | inl e ↦ rw (e, install_path) refl
    | inr (p, e) ↦ rw (e, install_path) (and_then-held _ _ r (drop_old-held _ _ r) (λ _ s. refl))
  ]

  set_up-held : (ack : SnekBootstrapAck) → Keeps (set_up w ack)
  unfolding set_up
  set_up-held ack r =
      on_hop-held _ _
        (λ peer s.
          if-held (s.public_key == peer) _ _ s refl
            (and_then-held _ _ s (log_send-held w _ peer s) (λ _. install_path-held ack peer)))
        r

  pub handle_bootstrap_ack-held : (ack : SnekBootstrapAck) → Keeps (handle_bootstrap_ack w ack)
  unfolding handle_bootstrap_ack
  handle_bootstrap_ack-held ack r =
      and_then-held (accepts_ack w ack r, r) _ r refl
        (λ update s. if-held update _ _ s (set_up-held ack s) refl)

  refuse_other_root-held : (from : Port) (rx : SnekSetup) → Keeps (refuse_other_root w from rx)
  unfolding refuse_other_root
  refuse_other_root-held from rx r =
      if-held (root_eq (current_root w r) rx.root) _ _ r refl
        (send_teardown_for_rejected_path-held rx.source_key rx.path_id from r)

  drop_previous-held : (p : Option SnekPath) → Keeps (drop_previous w p)
  unfolding drop_previous
  drop_previous-held none r = refl
  drop_previous-held (some p) r = spawn-held _ r

  send_setup_ack-held : (rx : SnekSetup) (from : Port) → Keeps (send_setup_ack w rx from)
  unfolding send_setup_ack
  send_setup_ack-held rx from r = elim (Option-cases (get_peer_on_port r from)) [
    | inl e ↦ rw (e, send_setup_ack) refl
    | inr (peer, e) ↦ rw (e, send_setup_ack) (log_send-held w _ peer r)
  ]

  setup_arrived-held : (from : Port) (rx : SnekSetup) → Keeps (setup_arrived w from rx)
  unfolding setup_arrived install_descending
  setup_arrived-held from rx r =
      and_then-held (accepts_setup w rx r, r) _ r refl
        λ update s.
          if-held update _ _ s
            (and_then-held _ _ s (drop_previous-held _ s) (λ _ t. send_setup_ack-held rx from _))
            (send_teardown_for_rejected_path-held _ _ from s)

  setup_transit-held :
      (from : Port) (rx : SnekSetup) (next_hop : Port) → Keeps (setup_transit w from rx next_hop)
  unfolding setup_transit
  setup_transit-held from rx next_hop r = elim (Option-cases (get_peer_on_port r next_hop)) [
    | inl e ↦ rw (e, setup_transit) refl
    | inr (peer, e) ↦
        rw (e, setup_transit)
          (if-held (peer == r.public_key) _ _ r (send_teardown_for_rejected_path-held _ _ from r)
            (and_then-held _ _ r (log_send-held w _ peer r) (λ _ s. refl)))
  ]

  pub handle_setup-held :
      (from : Port) (rx : SnekSetup) (next_hop : Port) → Keeps (handle_setup w from rx next_hop)
  unfolding handle_setup
  handle_setup-held from rx next_hop r =
      and_then-held _ _ r (refuse_other_root-held from rx r) λ _ s.
        if-held (Maps.contains_key s.paths (index_of rx)) _ _ s
          (and_then-held _ _ s (spawn-held _ s)
            (λ _. send_teardown_for_rejected_path-held _ _ from))
          (if-held (rx.destination_key == s.public_key) _ _ s (setup_arrived-held from rx s)
            (setup_transit-held from rx next_hop s))

  forward_ack-held : (entry : SnekPath) (rx : SnekSetupAck) → Keeps (forward_ack w entry rx)
  unfolding forward_ack
  forward_ack-held entry rx r = elim (Option-cases (get_peer_on_port r entry.source)) [
    | inl e ↦ rw (e, forward_ack) (if-held (entry.source == 0) _ _ r refl refl)
    | inr (peer, e) ↦
        rw (e, forward_ack) (if-held (entry.source == 0) _ _ r refl (log_send-held w _ peer r))
  ]

  promote-held : (entry : SnekPath) (r : Router) → held (promote w entry r) ≡ held r
  unfolding promote
  promote-held entry r = ground arith

  -- The loop goes on, and puts its entry before the rest.
  activate_rest-held :
      (from : Port) (rx : SnekSetupAck) (key : SnekPathIndex) (entry : SnekPath)
      (rest : HashMap SnekPathIndex SnekPath) (r : Router)
      → held (activate w from rx rest r).1 ≡ held r
      → held (and_then (activate w from rx rest r) (λ done t. (ok ((key, entry) ∷ done), t))).1
        ≡ held r
  activate_rest-held from rx key entry rest r h =
      and_then-held (activate w from rx rest r) (λ done t. (ok ((key, entry) ∷ done), t)) r h
        (λ done t. refl)

  activate-held :
      (from : Port) (rx : SnekSetupAck) (m : HashMap SnekPathIndex SnekPath)
      → Keeps (activate w from rx m)
  unfolding activate
  activate-held from rx [] r = refl
  activate-held from rx ((key, entry) ∷ rest) r = elim (Bool-cases (awaits w key entry from rx)) [
    | inl waits ↦
        let active_entry = record entry { active = true } in
        rw (waits, activate)
          (and_then-held (forward_ack w entry rx r)
            (λ _ s.
              and_then (activate w from rx rest (promote w active_entry s))
                (λ done t. (ok ((key, active_entry) ∷ done), t)))
            r (forward_ack-held entry rx r)
            (λ _ s.
              activate_rest-held from rx key active_entry rest _
                (activate-held from rx rest (promote w active_entry s))
              ∙ promote-held active_entry s))
    | inr not_waiting ↦
        rw (not_waiting, activate)
          (activate_rest-held from rx key entry rest r (activate-held from rx rest r))
  ]

  pub handle_setup_ack-held : (from : Port) (rx : SnekSetupAck) → Keeps (handle_setup_ack w from rx)
  unfolding handle_setup_ack
  handle_setup_ack-held from rx r =
      and_then-held _ _ r (activate-held from rx r.paths r) (λ _ s. refl)
