-- ===== src/Router/Schedule/Peers.antt =====
-- `disconnect_peer` and `stop` of src/router.rs: a state in which connections and ports fit together
-- stays one.
use rust_pinecone.Prelude.{
  ◌≡◌, ◌≢◌, inl, inr, refl, sym, ap, subst, ◌∙◌, arith, Bool, true, false, ◌==◌, Bool-cases,
  Option-cases, if◌then◌else◌, List, [], ◌∷◌, Option, none, some, Reply, ok, err, panic, M,
  and_then, All,
}
use rust_pinecone.Prelude.Maps
use rust_pinecone.Prelude.Maps.{nat_eq, get, insert, remove, get-insert, contains_key}
use rust_pinecone.Tree.{PublicKey, Port}
use rust_pinecone.Frames.{TreeAnnouncement}
use rust_pinecone.Router.State.{Router, World, for_each}
use rust_pinecone.Router.Sends.{and_then-state}
use rust_pinecone.Router.Ports.{port, peers}
use rust_pinecone.Router.Ports.Table.{IsTable, find_port-get}
use rust_pinecone.Router.HandleAnnouncement.Signed.{Signed}
use rust_pinecone.Router.Maintenance.{
  leave_port, drop_transit, drop_over, forget_peer, reselect, disconnect_peer, stop,
}
use rust_pinecone.Router.Bootstrap.{bootstrap_now}
use rust_pinecone.Router.Keeps.{held, and_then-held, if-held}
use rust_pinecone.Router.Keeps.Paths.{bootstrap_now-held}
use rust_pinecone.Router.Keeps.Upkeep.{drop_transit-held, drop_over-held, reselect-held}
use rust_pinecone.Router.Keeps.Handlers.{Kept, held-Kept}
use rust_pinecone.Router.Schedule.Links.{Linked, disconnect-Linked, leave-Linked}

-- Connections and ports fit together, and every stored announcement has a signature.
abbrev pub IsValid : Router → Type 0
IsValid r = Linked r.ports r.upload_connections r.download_connections × Signed r

pub Kept-IsValid : (r s : Router) → Kept r s → IsValid r → IsValid s
Kept-IsValid r s k v =
    (subst (λ x. Linked x.ports x.upload_connections x.download_connections) (sym k.0) v.0, k.1 v.1)

pub held-IsValid : (r s : Router) → held s ≡ held r → IsValid r → IsValid s
held-IsValid r s e = Kept-IsValid r s (held-Kept r s e)

All-remove :
    (P : TreeAnnouncement → Type 0) (m : Maps.HashMap PublicKey TreeAnnouncement) (k : PublicKey)
    → All (λ (x : PublicKey × TreeAnnouncement). P x.1) m
    → All (λ (x : PublicKey × TreeAnnouncement). P x.1) (remove m k)
unfolding remove
All-remove P [] k h = tt
All-remove P ((j, a) ∷ m) k h = elim (Bool-cases (j == k)) [
  | inl same ↦ rw (same, remove) (All-remove P m k h.1)
  | inr other ↦ rw (other, remove) (h.0, All-remove P m k h.1)
]

pub if-IsValid :
    {A : Type 0} (b : Bool) (x y : Reply A × Router)
    → IsValid x.1
    → IsValid y.1
    → IsValid (if b then x else y).1
if-IsValid true x y h k = h
if-IsValid false x y h k = k

zero_unused : (m : Maps.HashMap Port (Option PublicKey)) → IsTable m → get m 0 ≡ none
unfolding get
zero_unused [] t = refl
zero_unused ((p, v) ∷ m) t = ground (arith, zero_unused m t.2)

-- Whoever else is on the port of a peer is this peer.
port_owner :
    (r : Router) (p : Port) (peer other : PublicKey)
    → IsTable r.ports
    → port r peer ≡ some p
    → get r.ports p ≡ some (some other)
    → other ≡ peer
unfolding port
port_owner r p peer other t e h = elim (Bool-cases (r.public_key == peer)) [
  | inl own ↦ absurd (cc (rw (own, port) at e, zero_unused r.ports t, h))
  | inr differ ↦ cc ((find_port-get r.ports peer p t (rw (differ, port) at e)).1, h)
]

pub held-port : (r s : Router) (peer : PublicKey) → held s ≡ held r → port s peer ≡ port r peer
unfolding port
held-port r s peer e = ap (λ x. port x peer) e

module _ (w : World) where
  forget_peer-IsValid : (peer : PublicKey) (r : Router) → IsValid r → IsValid (forget_peer w peer r)
  unfolding forget_peer
  forget_peer-IsValid peer r v =
      (disconnect-Linked peer v.0, All-remove (λ a. a.signatures ≢ []) r.announcements peer v.1)

  -- With its port.
  forget_port-IsValid :
      (p : Port) (peer : PublicKey) (r : Router)
      → port r peer ≡ some p
      → IsValid r
      → IsValid (forget_peer w peer (record r { ports = remove r.ports p }))
  unfolding forget_peer
  forget_port-IsValid p peer r e v = (
    leave-Linked p peer (λ other h. port_owner r p peer other v.0.table e h) v.0,
    All-remove (λ a. a.signatures ≢ []) r.announcements peer v.1,
  )

  abbrev pub after_leaving : PublicKey → Bool → M Router (Unit {0})
  after_leaving peer lost s =
      and_then (reselect w peer lost (forget_peer w peer s))
        λ bootstrap t. if bootstrap then bootstrap_now w t else (ok tt, t)

  pub after_leaving-held :
      (peer : PublicKey) (lost : Bool) (s : Router)
      → held (after_leaving peer lost s).1 ≡ held (forget_peer w peer s)
  after_leaving-held peer lost s =
      and_then-held (reselect w peer lost (forget_peer w peer s)) _ (forget_peer w peer s)
        (reselect-held w peer lost (forget_peer w peer s))
        (λ bootstrap t.
          if-held bootstrap (bootstrap_now w t) (ok tt, t) t (bootstrap_now-held w t) refl)

  abbrev pub drop_port : Port → Router → Bool × Router
  drop_port p s =
      let (lost, t) = drop_over w p s.ascending_path s in
      let (_lost, u) = drop_over w p t.descending_path t in
      (lost, record u { ports = remove u.ports p })

  after_dropping-IsValid :
      (p : Port) (peer : PublicKey) (r : Router) (x : Reply (Unit {0}) × Router)
      → port r peer ≡ some p
      → held x.1 ≡ held r
      → IsValid r
      → IsValid
          (and_then
            (and_then x (λ _ s. (ok (drop_port p s).0, (drop_port p s).1)))
            (after_leaving peer)).1
  after_dropping-IsValid p peer r (ok u, s) e h v =
      let t = (drop_over w p s.ascending_path s).1 in
      let u = (drop_over w p t.descending_path t).1 in
      let same =
        drop_over-held w p t.descending_path t ∙ drop_over-held w p s.ascending_path s ∙ h in
      let lost = (drop_port p s).0 in
      let gone = record u { ports = remove u.ports p } in
      held-IsValid (forget_peer w peer gone) (after_leaving peer lost gone).1
        (after_leaving-held peer lost gone)
        (forget_port-IsValid p peer u (held-port r u peer same ∙ e) (held-IsValid r u same v))
  after_dropping-IsValid p peer r (err x, s) e h v = held-IsValid r s h v
  after_dropping-IsValid p peer r (panic, s) e h v = held-IsValid r s h v

  pub disconnect_peer-IsValid :
      (peer : PublicKey) (r : Router) → IsValid r → IsValid (disconnect_peer w peer r).1
  unfolding disconnect_peer leave_port
  disconnect_peer-IsValid peer r v = elim (Option-cases (port r peer)) [
    | inl e ↦
        rw (e, disconnect_peer)
          (held-IsValid (forget_peer w peer r) (after_leaving peer false r).1
            (after_leaving-held peer false r) (forget_peer-IsValid peer r v))
    | inr (p, e) ↦
        rw (e, disconnect_peer)
          (after_dropping-IsValid p peer r (drop_transit w p r.paths r) e
            (drop_transit-held w p r.paths r) v)
  ]

  pub stop-IsValid : (r : Router) → IsValid r → IsValid (stop w r).1
  unfolding stop for_each
  stop-IsValid r v = go (peers r) (record r { running = false }) v
    where
      go :
          (ps : List PublicKey) (s : Router)
          → IsValid s
          → IsValid (for_each (disconnect_peer w) ps s).1
      go [] s u = u
      go (peer ∷ ps) s u =
          and_then-state IsValid (disconnect_peer w peer s) (λ _. for_each (disconnect_peer w) ps)
            (disconnect_peer-IsValid peer s u) (λ _. go ps _ (disconnect_peer-IsValid peer s u))
