-- ===== src/Router/Maintenance/Disconnect.antt =====
-- `disconnect_peer` of src/router.rs: what becomes of the descending path.
use rust_pinecone.Prelude.{
  ◌≡◌, ◌≢◌, inl, inr, refl, ap, ◌∙◌, arith, true, ◌||◌, [], ◌∷◌, Option, none, some, ◌==◌,
  Bool-cases,
}
use rust_pinecone.Prelude.Maps.{HashMap}
use rust_pinecone.Tree.{Port}
use rust_pinecone.Snek.{SnekPathIndex, SnekPath}
use rust_pinecone.Router.State.{Router, World}
use rust_pinecone.Router.Sends.{core, spawn-core, and_then-core, and_then-state}
use rust_pinecone.Router.Teardown.{hits, teardown_path}
use rust_pinecone.Router.Maintenance.{drop_transit, drop_over, leave_port}

drop_transit-core :
    (w : World) (p : Port) (m : HashMap SnekPathIndex SnekPath) (r : Router)
    → core (drop_transit w p m r).1 ≡ core r
unfolding drop_transit
drop_transit-core w p [] r = refl
drop_transit-core w p ((key, value) ∷ rest) r =
    elim (Bool-cases ((value.destination == p) || (value.source == p))) [
      | inl over ↦
          rw (over, drop_transit)
            (and_then-core _ (λ _. drop_transit w p rest) r (spawn-core _ r)
              λ _ s e. drop_transit-core w p rest s ∙ e)
      | inr other ↦ rw (other, drop_transit) (drop_transit-core w p rest r)
    ]

-- A teardown of the ascending path does not touch the descending one.
teardown_path-ascending :
    (from : Port) (index : SnekPathIndex) (r : Router)
    → hits from index r.ascending_path ≡ true
    → (teardown_path from index r).1.descending_path ≡ r.descending_path
unfolding teardown_path
teardown_path-ascending from index r h = rw (h, teardown_path) refl

own_hit : (path : SnekPath) → hits 0 path.index (some path) ≡ true
unfolding hits
own_hit path = ground arith

drop_over-ascending :
    (w : World) (p : Port) (a : Option SnekPath) (r : Router)
    → r.ascending_path ≡ a
    → (drop_over w p a r).1.descending_path ≡ r.descending_path
unfolding drop_over
drop_over-ascending w p none r e = refl
drop_over-ascending w p (some path) r e = elim (Bool-cases (path.destination == p)) [
  | inl lost ↦
      rw (lost, drop_over)
        (teardown_path-ascending 0 path.index r (ap (hits 0 path.index) e ∙ own_hit path))
  | inr kept ↦ rw (kept, drop_over) refl
]

drop_over-elsewhere :
    (w : World) (p : Port) (a : Option SnekPath) (d : SnekPath) (r : Router)
    → a ≡ some d
    → d.destination ≢ p
    → (drop_over w p a r).1 ≡ r
unfolding drop_over
drop_over-elsewhere w p none d r e h = refl
drop_over-elsewhere w p (some path) d r e h = elim (Bool-cases (path.destination == p)) [
  | inl lost ↦ absurd (ground arith)
  | inr kept ↦ rw (kept, drop_over) refl
]

-- A descending path with destination 0 stays when `disconnect_peer` gives up a port other than 0,
-- also where the path came over this port.
pub leave_port_keeps_descending :
    (w : World) (p : Port) (d : SnekPath) (r : Router)
    → r.descending_path ≡ some d
    → d.destination ≡ 0
    → p ≢ 0
    → (leave_port w (some p) r).1.descending_path ≡ some d
unfolding leave_port
leave_port_keeps_descending w p d r e zero_way h =
    let s = (drop_transit w p r.paths r).1 in
    let at_s : s.descending_path ≡ some d =
      ap (λ (x : Router). x.descending_path) (drop_transit-core w p r.paths r) ∙ e in
    let t = (drop_over w p s.ascending_path s).1 in
    let at_t : t.descending_path ≡ some d =
      drop_over-ascending w p s.ascending_path s refl ∙ at_s in
    and_then-state (λ (x : Router). x.descending_path ≡ some d) (drop_transit w p r.paths r) _ at_s
      λ _.
        ap (λ (x : Router). x.descending_path)
          (drop_over-elsewhere w p t.descending_path d t at_t (λ q. h (q' q)))
        ∙ at_t
  where
    q' : d.destination ≡ p → p ≡ 0
    q' q = cc
