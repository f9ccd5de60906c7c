-- ===== src/Router/Schedule/Links.antt =====
-- The connections and the port table of src/router.rs: how they fit together.
use rust_pinecone.Prelude.{
  ◌≡◌, ◌≢◌, inl, inr, refl, sym, ap, ◌∙◌, arith, false, [], ◌∷◌, Option, none, some, ◌==◌, ==_iff,
  ==_self, Bool-cases,
}
use rust_pinecone.Prelude.Maps.{
  HashMap, nat_eq, get, insert, remove, contains_key, contains_key-get, get-insert, get-remove,
}
use rust_pinecone.Tree.{PublicKey, Port}
use rust_pinecone.Router.Ports.Table.{IsTable, insert-IsTable}

abbrev Table : Type 0
Table = HashMap Port (Option PublicKey)

abbrev Connections : Type 0
Connections = HashMap PublicKey (Unit {0})

-- The port table is well formed, both directions have the same connections, and every peer with a
-- connection has a port.
pub record Linked (ports : Table) (up : Connections) (down : Connections) : Type 0 where
  pub table : IsTable ports
  pub paired : up ≡ down
  pub ported :
      (peer : PublicKey) → get down peer ≡ some tt → (p : Port) × (get ports p ≡ some (some peer))

contains_key-remove :
    (m : Table) (p q : Port) → contains_key m q ≡ false → contains_key (remove m p) q ≡ false
unfolding contains_key remove
contains_key-remove [] p q h = refl
contains_key-remove ((i, u) ∷ m) p q h = ground (arith, contains_key-remove m p q)

remove-IsTable : (m : Table) (p : Port) → IsTable m → IsTable (remove m p)
unfolding remove
remove-IsTable [] p t = tt
remove-IsTable ((i, u) ∷ m) p t = elim (Bool-cases (i == p)) [
  | inl same ↦ rw (same, remove) (remove-IsTable m p t.2)
  | inr other ↦ rw (other, remove) (t.0, contains_key-remove m p i t.1, remove-IsTable m p t.2)
]

-- A port that is not used, or is the peer's already, becomes the peer's.
pub insert-Linked :
    {ports : Table} {up down : Connections} (p : Port) (peer : PublicKey)
    → p ≢ 0
    → ((other : PublicKey) → get ports p ≡ some (some other) → other ≡ peer)
    → Linked ports up down
    → Linked (insert ports p (some peer)) up down
insert-Linked {ports} p peer lo own l = record {
  table = insert-IsTable ports p (some peer) lo l.table;
  paired = l.paired;
  ported = λ other c. elim (Bool-cases (p == (l.ported other c).0)) [
    | inl same ↦
        let eq = (==_iff p (l.ported other c).0).0 same in
        (
          p,
          get-insert ports p p (some peer)
              ∙ rw (==_self p) (
                  ap (λ x. some (some x))
                    (sym (own other (ap (get ports) eq ∙ (l.ported other c).1)))),
        )
    | inr differ ↦ (
      (l.ported other c).0,
      get-insert ports p (l.ported other c).0 (some peer) ∙ rw differ (l.ported other c).1,
    )
  ];
}

-- A new port without a peer.
pub reserve-Linked :
    {ports : Table} {up down : Connections} (p : Port)
    → p ≢ 0
    → contains_key ports p ≡ false
    → Linked ports up down
    → Linked (insert ports p none) up down
reserve-Linked {ports} p lo free l = record {
  table = insert-IsTable ports p none lo l.table;
  paired = l.paired;
  ported = λ other c. elim (Bool-cases (p == (l.ported other c).0)) [
    | inl same ↦
        let eq = (==_iff p (l.ported other c).0).0 same in
        absurd (cc (contains_key-get ports p free, ap (get ports) eq, (l.ported other c).1))
    | inr differ ↦ (
      (l.ported other c).0,
      get-insert ports p (l.ported other c).0 none ∙ rw differ (l.ported other c).1,
    )
  ];
}

-- A peer that has a port gets its connections.
pub connect-Linked :
    {ports : Table} {up down : Connections} (p : Port) (peer : PublicKey)
    → get ports p ≡ some (some peer)
    → Linked ports up down
    → Linked ports (insert up peer tt) (insert down peer tt)
connect-Linked {ports} {up} {down} p peer own l = record {
  table = l.table;
  paired = ap (λ m. insert m peer tt) l.paired;
  ported = λ other c. elim (Bool-cases (peer == other)) [
    | inl same ↦ (p, own ∙ ap (λ x. some (some x)) ((==_iff peer other).0 same))
    | inr differ ↦ l.ported other (sym (get-insert down peer other tt ∙ rw differ refl) ∙ c)
  ];
}

-- A peer loses its connections.
pub disconnect-Linked :
    {ports : Table} {up down : Connections} (peer : PublicKey)
    → Linked ports up down
    → Linked ports (remove up peer) (remove down peer)
disconnect-Linked {ports} {up} {down} peer l = record {
  table = l.table;
  paired = ap (λ m. remove m peer) l.paired;
  ported = λ other c. elim (Bool-cases (peer == other)) [
    | inl same ↦ absurd (cc (c, get-remove down peer other, same))
    | inr differ ↦ l.ported other (sym (get-remove down peer other ∙ rw differ refl) ∙ c)
  ];
}

-- A port is given up, with the connections of its peer.
pub leave-Linked :
    {ports : Table} {up down : Connections} (p : Port) (peer : PublicKey)
    → ((other : PublicKey) → get ports p ≡ some (some other) → other ≡ peer)
    → Linked ports up down
    → Linked (remove ports p) (remove up peer) (remove down peer)
leave-Linked {ports} {up} {down} p peer own l =
    let d = disconnect-Linked peer l in
    record {
      table = remove-IsTable ports p l.table;
      paired = d.paired;
      ported = λ other c. elim (Bool-cases (p == (d.ported other c).0)) [
        | inl same ↦
            let eq = (==_iff p (d.ported other c).0).0 same in
            let is_peer = own other (ap (get ports) eq ∙ (d.ported other c).1) in
            absurd (cc (c, get-remove down peer other, is_peer, ==_self peer))
        | inr differ ↦ (
          (d.ported other c).0,
          get-remove ports p (d.ported other c).0 ∙ rw differ (d.ported other c).1,
        )
      ];
    }
