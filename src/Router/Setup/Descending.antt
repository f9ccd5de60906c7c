-- ===== src/Router/Setup/Descending.antt =====
-- `handle_setup` of src/router.rs: which setups change the descending path.
use rust_pinecone.Prelude.{
  ◌<◌, ◌≡◌, ◌⊎◌, inl, inr, refl, sym, subst, ap, ◌∙◌, Bool, true, false, Option, none, some, ltb,
  ltb→lt, ◌==◌, ==_iff, ==_self, Bool-cases, Option-cases, Reply, ok, err, panic,
}
use rust_pinecone.Prelude.Maps
use rust_pinecone.Prelude.Maps.{get-insert}
use rust_pinecone.Tree.{Port, root_eq}
use rust_pinecone.Tree.Order.{root_eq_iff}
use rust_pinecone.Frames.{SnekSetup, snek_setup}
use rust_pinecone.Snek.{SnekPath, index_Eq}
use rust_pinecone.Router.State.{Router, World, send, log_error}
use rust_pinecone.Router.Ports.{get_peer_on_port}
use rust_pinecone.Router.Announce.{current_announcement, current_root}
use rust_pinecone.Router.Sends.{core, log_error-state, send-core, spawn-core, and_then-state}
use rust_pinecone.Router.Teardown.{send_teardown_for_existing_path}
use rust_pinecone.Router.Teardown.Outputs.{send_teardown_for_rejected_path-core}
use rust_pinecone.Router.Setup.{
  index_of, accepts_setup, descending_entry, drop_previous, send_setup_ack, install_descending,
  setup_arrived, setup_transit, transit_entry, refuse_other_root, handle_setup,
}

module _ (w : World) (from : Port) (rx : SnekSetup) where
  -- The setup has become the descending path of `s`, and was for the router `r`.
  pub record IsInstalled (r s : Router) : Type 0 where
    pub path : SnekPath
    pub set : s.descending_path ≡ some path
    pub stored : Maps.get s.paths path.index ≡ some path
    pub index : path.index ≡ index_of rx
    pub over : path.source ≡ from
    pub for_us : rx.destination_key ≡ r.public_key
    pub below : rx.source_key < r.public_key
    pub same_root : rx.root ≡ current_root w r

  abbrev pub Descends : Router → Router → Type 0
  Descends r s = (s.descending_path ≡ r.descending_path) ⊎ IsInstalled r s

  same_core : (r s : Router) → core s ≡ core r → Descends r s
  same_core r s e = inl (ap (λ (x : Router). x.descending_path) e)

  from_core : (r s t : Router) → core s ≡ core r → Descends s t → Descends r t
  unfolding current_announcement current_root
  from_core r s t e (inl kept) = inl (kept ∙ ap (λ (x : Router). x.descending_path) e)
  from_core r s t e (inr i) = inr (record {
    path = i.path;
    set = i.set;
    stored = i.stored;
    index = i.index;
    over = i.over;
    for_us = i.for_us ∙ ap (λ (x : Router). x.public_key) e;
    below = subst (λ k. rx.source_key < k) (ap (λ (x : Router). x.public_key) e) i.below;
    same_root = i.same_root ∙ ap (current_root w) e;
  })

  accepts_setup-below :
      (r : Router)
      → accepts_setup w rx r ≡ ok true
      → (rx.root ≡ current_root w r) × (rx.source_key < r.public_key)
  unfolding accepts_setup
  accepts_setup-below r h = elim (Bool-cases (root_eq (current_root w r) rx.root)) [
    | inr other ↦ absurd (cc (rw (other, accepts_setup) at h))
    | inl same ↦ elim (Bool-cases (ltb rx.source_key r.public_key)) [
      | inr above ↦ absurd (cc (rw (same, above, accepts_setup) at h))
      | inl below ↦ (sym ((root_eq_iff _ _).0 same), ltb→lt _ _ below)
    ]
  ]

  drop_previous-core : (p : Option SnekPath) (r : Router) → core (drop_previous w p r).1 ≡ core r
  unfolding drop_previous
  drop_previous-core none r = refl
  drop_previous-core (some p) r = spawn-core _ r

  send_setup_ack-core : (r : Router) → core (send_setup_ack w rx from r).1 ≡ core r
  unfolding send_setup_ack
  send_setup_ack-core r = elim (Option-cases (get_peer_on_port r from)) [
    | inl e ↦ rw (e, send_setup_ack) refl
    | inr (peer, e) ↦ rw (e, send_setup_ack) (ap core (log_error-state _) ∙ send-core w _ peer r)
  ]

  installed :
      (r s t : Router)
      → core s ≡ core (install_descending w (descending_entry w rx from) t)
      → rx.destination_key ≡ r.public_key
      → (rx.root ≡ current_root w r) × (rx.source_key < r.public_key)
      → IsInstalled r s
  unfolding install_descending descending_entry
  installed r s t e d (root, below) = record {
    path = descending_entry w rx from;
    set = ap (λ (x : Router). x.descending_path) e;
    stored = ap (λ (x : Router). Maps.get x.paths (index_of rx)) e ∙ found;
    index = refl;
    over = refl;
    for_us = d;
    below = below;
    same_root = root;
  }
    where
      found :
          Maps.get (Maps.insert t.paths (index_of rx) (descending_entry w rx from)) (index_of rx)
          ≡ some (descending_entry w rx from)
      found =
          get-insert t.paths (index_of rx) (index_of rx) (descending_entry w rx from)
          ∙ rw (==_self rx.source_key, ==_self rx.path_id)

  setup_arrived-Descends :
      (r : Router) → rx.destination_key ≡ r.public_key → Descends r (setup_arrived w from rx r).1
  unfolding setup_arrived
  setup_arrived-Descends r d = go (accepts_setup w rx r) refl
    where
      go : (x : Reply Bool) → accepts_setup w rx r ≡ x → Descends r (setup_arrived w from rx r).1
      go (ok true) e =
          rw (e, setup_arrived)
            (and_then-state (Descends r) (drop_previous w r.descending_path r) _
              (same_core r _ (drop_previous-core r.descending_path r))
              λ _. inr (installed r _ _ (send_setup_ack-core _) d (accepts_setup-below r e)))
      go (ok false) e =
          rw (e, setup_arrived)
            (same_core r _ (send_teardown_for_rejected_path-core w rx.source_key rx.path_id from r))
      go (err x) e = rw (e, setup_arrived) (inl refl)
      go panic e = rw (e, setup_arrived) (inl refl)

  setup_transit-Descends :
      (next_hop : Port) (r : Router) → Descends r (setup_transit w from rx next_hop r).1
  unfolding setup_transit
  setup_transit-Descends next_hop r = elim (Option-cases (get_peer_on_port r next_hop)) [
    | inl e ↦ rw (e, setup_transit) (inl refl)
    | inr (peer, e) ↦
        rw (e, setup_transit)
          (elim (Bool-cases (peer == r.public_key)) [
            | inl us ↦ rw us (
                same_core r _
                  (send_teardown_for_rejected_path-core w rx.source_key rx.path_id from r))
            | inr other ↦ rw other (
                let x = log_error (send w (snek_setup rx) peer r) in
                let forwarded : core x.1 ≡ core r =
                  ap core (log_error-state (send w (snek_setup rx) peer r))
                  ∙ send-core w (snek_setup rx) peer r in
                and_then-state (Descends r) x
                  (λ _ s. (
                    ok tt,
                    record s {
                      paths = Maps.insert s.paths (index_of rx) (transit_entry w rx from next_hop);
                    },
                  ))
                  (same_core r x.1 forwarded)
                  λ _. inl (ap (λ (y : Router). y.descending_path) forwarded))
          ])
  ]

  refuse_other_root-core : (r : Router) → core (refuse_other_root w from rx r).1 ≡ core r
  unfolding refuse_other_root
  refuse_other_root-core r = elim (Bool-cases (root_eq (current_root w r) rx.root)) [
    | inl same ↦ rw (same, refuse_other_root) refl
    | inr other ↦
        rw (other, refuse_other_root)
          (send_teardown_for_rejected_path-core w rx.source_key rx.path_id from r)
  ]

  -- However `handle_setup` ends, the descending path stays as it was, or the setup was for this
  -- router, from a lower key and under this router's current root, and its path, over the port
  -- that it came by, is the descending path and stands in the routing table.
  pub handle_setup-Descends :
      (next_hop : Port) (r : Router) → Descends r (handle_setup w from rx next_hop r).1
  unfolding handle_setup
  handle_setup-Descends next_hop r =
      let s = (refuse_other_root w from rx r).1 in
      let start = refuse_other_root-core r in
      and_then-state (Descends r) (refuse_other_root w from rx r) _ (same_core r s start) λ _.
        elim (Bool-cases (Maps.contains_key s.paths (index_of rx))) [
          | inl known ↦ rw known (
              let torn = spawn-core _ s ∙ start in
              and_then-state (Descends r)
                (send_teardown_for_existing_path 0 rx.source_key rx.path_id s) _
                (same_core r _ torn)
                λ _.
                  same_core r _
                    (send_teardown_for_rejected_path-core w rx.source_key rx.path_id from _ ∙ torn))
          | inr unknown ↦ rw unknown (elim (Bool-cases (rx.destination_key == s.public_key)) [
            | inl us ↦ rw us (from_core r s _ start (setup_arrived-Descends s ((==_iff _ _).0 us)))
            | inr other ↦ rw other (from_core r s _ start (setup_transit-Descends next_hop s))
          ])
        ]
