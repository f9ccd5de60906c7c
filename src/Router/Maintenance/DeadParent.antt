-- ===== src/Router/Maintenance/DeadParent.antt =====
-- `disconnect_peer` of src/router.rs, where the lost peer was the parent and the ascending path went
-- over it.
use rust_pinecone.Prelude.{
  ◌≡◌, refl, ap, ◌∙◌, arith, Bool, true, false, if◌then◌else◌, Bool-cases, ◌==◌, ==_self, [], ◌∷◌,
  Option, none, some, inl, inr, Reply, ok, err, panic, M, ◌||◌,
}
use rust_pinecone.Prelude.Maps.{HashMap, nat_eq, get, remove, get-remove}
use rust_pinecone.Tree.{PublicKey, Port}
use rust_pinecone.Snek.{SnekPathIndex, SnekPath}
use rust_pinecone.Router.State.{Router, World, spawn, teardown_existing, send, log_error}
use rust_pinecone.Router.Sends.{core, log_error-state, send-core}
use rust_pinecone.Router.Ports.{port}
use rust_pinecone.Router.Teardown.{teardown_path}
use rust_pinecone.Router.Maintenance.{
  drop_transit, drop_over, leave_port, forget_peer, reselect, disconnect_peer,
}
use rust_pinecone.Router.Bootstrap.{on_hop, own_bootstrap, bootstrap_now}
use rust_pinecone.Router.SnekHop.{next_snek_hop}
use rust_pinecone.Frames.{snek_bootstrap}
use rust_pinecone.Router.Keeps.Paths.{bootstrap_now-held}

-- `drop_transit` only queues tasks.
pub drop_transit_total :
    (w : World) (p : Port) (m : HashMap SnekPathIndex SnekPath) (r : Router)
    → (s : Router) × (drop_transit w p m r ≡ (ok tt, s)) × (core s ≡ core r)
unfolding drop_transit spawn
drop_transit_total w p [] r = (r, refl, refl)
drop_transit_total w p ((key, value) ∷ rest) r =
    elim (Bool-cases ((value.destination == p) || (value.source == p))) [
      | inl over ↦
          let (s, e, c) =
            drop_transit_total w p rest
              (spawn (teardown_existing p key.public_key key.path_id) r).1 in
          (s, rw (over, drop_transit) e, c)
      | inr other ↦
          let (s, e, c) = drop_transit_total w p rest r in (s, rw (other, drop_transit) e, c)
    ]

teardown_path-parent :
    (from : Port) (i : SnekPathIndex) (r : Router) → (teardown_path from i r).1.parent ≡ r.parent
unfolding teardown_path
teardown_path-parent from i r = ground arith

drop_over-parent :
    (w : World) (p : Port) (a : Option SnekPath) (r : Router)
    → (drop_over w p a r).1.parent ≡ r.parent
unfolding drop_over
drop_over-parent w p none r = refl
drop_over-parent w p (some path) r = ground (arith, teardown_path-parent 0 path.index r)

on_hop-parent :
    (x : Reply (Option PublicKey)) (f : PublicKey → M Router (Unit {0})) (r : Router)
    → ((peer : PublicKey) → (f peer r).1.parent ≡ r.parent)
    → (on_hop x f r).1.parent ≡ r.parent
on_hop-parent (ok none) f r h = refl
on_hop-parent (ok (some peer)) f r h = h peer
on_hop-parent (err e) f r h = refl
on_hop-parent panic f r h = refl

module _ (w : World) where
  bootstrap_now-parent : (r : Router) → (bootstrap_now w r).1.parent ≡ r.parent
  unfolding bootstrap_now
  bootstrap_now-parent r =
      let hop = next_snek_hop r.public_key true w r false in
      let f : PublicKey → M Router (Unit {0}) =
        λ peer s. log_error (send w (snek_bootstrap (own_bootstrap w r)) peer s) in
      ground (
        arith,
        on_hop-parent hop f r (λ peer.
            ap (λ (x : Router). x.parent)
              (log_error-state (send w (snek_bootstrap (own_bootstrap w r)) peer r))
            ∙ ap (λ (x : Router). x.parent)
                (send-core w (snek_bootstrap (own_bootstrap w r)) peer r)),
      )

  drop_over_lost :
      (p : Port) (a : Option SnekPath) (path : SnekPath) (r : Router)
      → a ≡ some path
      → path.destination ≡ p
      → (drop_over w p a r).0 ≡ true
  unfolding drop_over
  drop_over_lost p none path r e h = absurd (cc e)
  drop_over_lost p (some other) path r e h = elim (Bool-cases (other.destination == p)) [
    | inl lost ↦ rw (lost, drop_over) refl
    | inr kept ↦ absurd (cc (kept, e, h, ==_self p))
  ]

  -- The path over the port is lost, and says so.
  leave_port_lost :
      (p : Port) (path : SnekPath) (r : Router)
      → r.ascending_path ≡ some path
      → path.destination ≡ p
      → (s : Router) × (leave_port w (some p) r ≡ (ok true, s)) × (s.parent ≡ r.parent)
  unfolding leave_port
  leave_port_lost p path r asc over =
      let (s, e, c) = drop_transit_total w p r.paths r in
      let t = (drop_over w p s.ascending_path s).1 in
      let u = (drop_over w p t.descending_path t).1 in
      let kept : s.ascending_path ≡ some path = ap (λ (x : Router). x.ascending_path) c ∙ asc in
      (
        record u { ports = remove u.ports p },
        rw (e, leave_port)
            (ap (λ (b : Bool). (ok b, record u { ports = remove u.ports p }))
              (drop_over_lost p s.ascending_path path s kept over)),
        drop_over-parent w p t.descending_path t
            ∙ drop_over-parent w p s.ascending_path s
            ∙ ap (λ (x : Router). x.parent) c,
      )

  reselect_lost :
      (peer : PublicKey) (r : Router) → r.parent ≡ peer → reselect w peer true r ≡ (ok true, r)
  unfolding reselect
  reselect_lost peer r h =
      ap (λ b. if b then (ok true, r) else (ok true, r)) (ap (λ k. k == peer) h ∙ ==_self peer)

  -- Where a peer that `disconnect_peer` gives up is the parent, and the ascending path went over
  -- its port, it is still the parent afterwards, without a stored announcement.
  pub disconnect_peer_dead_parent :
      (peer : PublicKey) (p : Port) (path : SnekPath) (r : Router)
      → port r peer ≡ some p
      → r.ascending_path ≡ some path
      → path.destination ≡ p
      → r.parent ≡ peer
      → ((disconnect_peer w peer r).1.parent ≡ peer)
        × (get (disconnect_peer w peer r).1.announcements peer ≡ none)
  unfolding disconnect_peer forget_peer get
  disconnect_peer_dead_parent peer p path r own asc over was =
      let (s, e, same) = leave_port_lost p path r asc over in
      let left = forget_peer w peer s in
      rw (own, e, reselect_lost peer left (same ∙ was), disconnect_peer)
        (
          bootstrap_now-parent left ∙ same ∙ was,
          ap (λ (x : Router). get x.announcements peer) (bootstrap_now-held w left)
              ∙ get-remove s.announcements peer peer
              ∙ rw (==_self peer) refl,
        )
