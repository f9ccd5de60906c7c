-- ===== src/Router/Tracks/Setups.antt =====
-- `handle_setup` and `handle_setup_ack` of src/router.rs: which paths they leave in the router.
use rust_pinecone.Prelude.{
  ◌≡◌, refl, subst, arith, true, Bool-cases, ◌==◌, if◌then◌else◌, [], ◌∷◌, All, some, Option-cases,
  inl, inr, Reply, ok, err, panic, M, and_then, Holds,
}
use rust_pinecone.Prelude.Maps
use rust_pinecone.Prelude.Maps.{HashMap, insert}
use rust_pinecone.Tree.{PublicKey, Port}
use rust_pinecone.Frames.{SnekSetup, SnekSetupAck, snek_setup}
use rust_pinecone.Snek.{SnekPathIndex, SnekPath, index_Eq, path_eq}
use rust_pinecone.Router.State.{Router, World, spawn, teardown_existing, send, log_error}
use rust_pinecone.Router.Ports.{get_peer_on_port}
use rust_pinecone.Router.Setup.{
  index_of, refuse_other_root, transit_entry, setup_arrived, setup_transit, handle_setup, awaits,
  forward_ack, promote, activate, handle_setup_ack,
}
use rust_pinecone.Router.Teardown.{send_teardown_for_rejected_path}
use rust_pinecone.Router.Tracks.{
  IsTracked, Tracks, Keyed, Begins, and_then-IsTracked, if-IsTracked, log_send-Tracks, spawn-Tracks,
}
use rust_pinecone.Router.Tracks.Paths.{insert-Keyed, send_teardown_for_rejected_path-Tracks}
use rust_pinecone.Router.Tracks.Handlers.{refuse_other_root-Tracks, setup_arrived-Tracks}

module _ (w : World) where
  install_transit-IsTracked :
      (from : Port) (rx : SnekSetup) (next_hop : Port) (s : Router)
      → IsTracked s
      → IsTracked
          (record s { paths = insert s.paths (index_of rx) (transit_entry w rx from next_hop) })
  unfolding transit_entry
  install_transit-IsTracked from rx next_hop s v = record {
    keyed = insert-Keyed s.paths (index_of rx) (transit_entry w rx from next_hop) refl v.keyed;
    ascending = v.ascending;
    candidate = v.candidate;
    descending = v.descending;
  }

  setup_transit-Tracks :
      (from : Port) (rx : SnekSetup) (next_hop : Port) → Tracks (setup_transit w from rx next_hop)
  unfolding setup_transit
  setup_transit-Tracks from rx next_hop r v = elim (Option-cases (get_peer_on_port r next_hop)) [
    | inl e ↦ rw (e, setup_transit) v
    | inr (peer, e) ↦
        rw (e, setup_transit)
          (if-IsTracked (peer == r.public_key) _ _
            (send_teardown_for_rejected_path-Tracks w _ _ from r v)
            (and_then-IsTracked (log_error (send w (snek_setup rx) peer r)) _
              (log_send-Tracks w _ peer r v)
              (λ _ s u. install_transit-IsTracked from rx next_hop s u)))
  ]

  abbrev setup_new : Port → SnekSetup → Port → M Router (Unit {0})
  setup_new from rx next_hop s =
      if Maps.contains_key s.paths (index_of rx)
      then and_then (spawn (teardown_existing 0 rx.source_key rx.path_id) s)
          (λ _. send_teardown_for_rejected_path w rx.source_key rx.path_id from)
      else if rx.destination_key == s.public_key
      then setup_arrived w from rx s
      else setup_transit w from rx next_hop s

  setup_new-Tracks :
      (from : Port) (rx : SnekSetup) (next_hop : Port) → Tracks (setup_new from rx next_hop)
  setup_new-Tracks from rx next_hop s u =
      if-IsTracked (Maps.contains_key s.paths (index_of rx))
        (and_then (spawn (teardown_existing 0 rx.source_key rx.path_id) s)
          (λ _. send_teardown_for_rejected_path w rx.source_key rx.path_id from))
        (if rx.destination_key == s.public_key
          then setup_arrived w from rx s
          else setup_transit w from rx next_hop s)
        (and_then-IsTracked (spawn (teardown_existing 0 rx.source_key rx.path_id) s)
          (λ _. send_teardown_for_rejected_path w rx.source_key rx.path_id from)
          (spawn-Tracks (teardown_existing 0 rx.source_key rx.path_id) s u)
          (λ _. send_teardown_for_rejected_path-Tracks w rx.source_key rx.path_id from))
        (if-IsTracked (rx.destination_key == s.public_key) (setup_arrived w from rx s)
          (setup_transit w from rx next_hop s) (setup_arrived-Tracks w from rx s u)
          (setup_transit-Tracks from rx next_hop s u))

  pub handle_setup-Tracks :
      (from : Port) (rx : SnekSetup) (next_hop : Port) → Tracks (handle_setup w from rx next_hop)
  unfolding handle_setup
  handle_setup-Tracks from rx next_hop r v =
      and_then-IsTracked (refuse_other_root w from rx r) (λ _. setup_new from rx next_hop)
        (refuse_other_root-Tracks w from rx r v) (λ _. setup_new-Tracks from rx next_hop)

  forward_ack-Tracks : (entry : SnekPath) (rx : SnekSetupAck) → Tracks (forward_ack w entry rx)
  unfolding forward_ack
  forward_ack-Tracks entry rx r v = elim (Option-cases (get_peer_on_port r entry.source)) [
    | inl e ↦ rw (e, forward_ack) (if-IsTracked (entry.source == 0) _ _ v v)
    | inr (peer, e) ↦
        rw (e, forward_ack) (if-IsTracked (entry.source == 0) _ _ v (log_send-Tracks w _ peer r v))
  ]

  -- An entry that equals the candidate begins here as it does.
  path_eq-Begins :
      (key : PublicKey) (p q : SnekPath)
      → path_eq p q ≡ true
      → p.active ≡ true
      → Begins key (some q)
      → Begins key (some p)
  path_eq-Begins key p q e a b = (ground arith, ground arith, a)

  promote-IsTracked :
      (entry : SnekPath) (r : Router)
      → entry.active ≡ true
      → IsTracked r
      → IsTracked (promote w entry r)
  unfolding promote
  promote-IsTracked entry r a v = elim (Option-cases r.candidate) [
    | inl e ↦ rw (e, promote) v
    | inr (q, e) ↦
        let begins = subst (Begins r.public_key) e v.candidate in
        elim (Bool-cases (path_eq entry q)) [
          | inl same ↦
              rw (e, same, promote)
                (record {
                  keyed = v.keyed;
                  ascending = path_eq-Begins r.public_key entry q same a begins;
                  candidate = tt;
                  descending = v.descending;
                })
          | inr differ ↦ rw (e, differ, promote) v
        ]
  ]

  -- What the loop has done, and the state that it leaves.
  abbrev Activated : Reply (HashMap SnekPathIndex SnekPath) × Router → Type 0
  Activated x = Holds (All Keyed) x.0 × IsTracked x.1

  abbrev prepend :
      SnekPathIndex × SnekPath
      → Reply (HashMap SnekPathIndex SnekPath) × Router
      → Reply (HashMap SnekPathIndex SnekPath) × Router
  prepend e x = and_then x (λ done t. (ok (e ∷ done), t))

  prepend-Activated :
      (e : SnekPathIndex × SnekPath) (x : Reply (HashMap SnekPathIndex SnekPath) × Router)
      → Keyed e
      → Activated x
      → Activated (prepend e x)
  prepend-Activated e (ok done, s) k h = ((k, h.0), h.1)
  prepend-Activated e (err x, s) k h = (tt, h.1)
  prepend-Activated e (panic, s) k h = (tt, h.1)

  then-Activated :
      (x : Reply (Unit {0}) × Router) (f : Unit {0} → M Router (HashMap SnekPathIndex SnekPath))
      → IsTracked x.1
      → ((s : Router) → IsTracked s → Activated (f tt s))
      → Activated (and_then x f)
  then-Activated (ok u, s) f v h = h s v
  then-Activated (err e, s) f v h = (tt, v)
  then-Activated (panic, s) f v h = (tt, v)

  activate-Activated :
      (from : Port) (rx : SnekSetupAck) (m : HashMap SnekPathIndex SnekPath) (r : Router)
      → All Keyed m
      → IsTracked r
      → Activated (activate w from rx m r)
  unfolding activate
  activate-Activated from rx [] r k v = (tt, v)
  activate-Activated from rx ((key, entry) ∷ rest) r k v =
      elim (Bool-cases (awaits w key entry from rx)) [
        | inl waits ↦
            let active_entry : SnekPath = record entry { active = true } in
            rw (waits, activate)
              (then-Activated (forward_ack w entry rx r)
                (λ _ s.
                  prepend (key, active_entry) (activate w from rx rest (promote w active_entry s)))
                (forward_ack-Tracks entry rx r v)
                (λ s u.
                  prepend-Activated (key, active_entry)
                    (activate w from rx rest (promote w active_entry s)) k.0
                    (activate-Activated from rx rest (promote w active_entry s) k.1
                      (promote-IsTracked active_entry s refl u))))
        | inr not_waiting ↦
            rw (not_waiting, activate)
              (prepend-Activated (key, entry) (activate w from rx rest r) k.0
                (activate-Activated from rx rest r k.1 v))
      ]

  abbrev store_done : Reply (HashMap SnekPathIndex SnekPath) × Router → Reply (Unit {0}) × Router
  store_done x = and_then x (λ done s. (ok tt, record s { paths = done }))

  finish-IsTracked :
      (x : Reply (HashMap SnekPathIndex SnekPath) × Router)
      → Activated x
      → IsTracked (store_done x).1
  finish-IsTracked (ok done, s) h = record {
    keyed = h.0;
    ascending = h.1.ascending;
    candidate = h.1.candidate;
    descending = h.1.descending;
  }
  finish-IsTracked (err e, s) h = h.1
  finish-IsTracked (panic, s) h = h.1

  pub handle_setup_ack-Tracks :
      (from : Port) (rx : SnekSetupAck) → Tracks (handle_setup_ack w from rx)
  unfolding handle_setup_ack
  handle_setup_ack-Tracks from rx r v =
      finish-IsTracked (activate w from rx r.paths r)
        (activate-Activated from rx r.paths r v.keyed v)
