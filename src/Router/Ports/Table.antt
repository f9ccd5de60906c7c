-- ===== src/Router/Ports/Table.antt =====
-- The port table of src/router.rs: its well-formedness, and looking up ports and peers.
use rust_pinecone.Prelude.{
  ◌≡◌, ◌≢◌, inl, inr, refl, sym, ap, ◌∙◌, arith, true, false, [], ◌∷◌, Option, none, some, ◌==◌,
  ==_iff, Bool-cases,
}
use rust_pinecone.Prelude.Maps.{HashMap, nat_eq, get, insert, contains_key}
use rust_pinecone.Tree.{PublicKey, Port}
use rust_pinecone.Router.State.{Router}
use rust_pinecone.Router.Ports.{get_new_port, find_port, port, get_peer_on_port}
use rust_pinecone.Router.Ports.Fresh.{get_new_port_total}

abbrev Table : Type 0
Table = HashMap Port (Option PublicKey)

-- No port has two entries, and port 0, the router's own, has none.
abbrev pub IsTable : Table → Type 0
IsTable [] = Unit {0}
IsTable ((p, v) ∷ m) = (p ≢ 0) × (contains_key m p ≡ false) × IsTable m

contains_key-insert :
    (m : Table) (p q : Port) (v : Option PublicKey)
    → p ≢ q
    → contains_key (insert m p v) q ≡ contains_key m q
unfolding contains_key insert
contains_key-insert [] p q v h = ground arith
contains_key-insert ((i, u) ∷ m) p q v h = ground (arith, contains_key-insert m p q v)

pub insert-IsTable :
    (m : Table) (p : Port) (v : Option PublicKey) → p ≢ 0 → IsTable m → IsTable (insert m p v)
unfolding insert contains_key
insert-IsTable [] p v h t = (h, refl, tt)
insert-IsTable ((i, u) ∷ m) p v h t = elim (Bool-cases (i == p)) [
  | inl same ↦
      let eq = (==_iff i p).0 same in rw (same, insert) (h, ap (contains_key m) (sym eq) ∙ t.1, t.2)
  | inr other ↦
      rw (other, insert)
        (t.0, contains_key-insert m p i v (ground arith) ∙ t.1, insert-IsTable m p v h t.2)
]

-- A port that a peer is found on is an entry with this peer, and not port 0.
pub find_port-get :
    (m : Table) (of : PublicKey) (p : Port)
    → IsTable m
    → find_port m of ≡ some p
    → (p ≢ 0) × (get m p ≡ some (some of)) × (contains_key m p ≡ true)
unfolding find_port get contains_key
find_port-get [] of p t h = absurd (cc h)
find_port-get ((i, none) ∷ m) of p t h = ground (arith, find_port-get m of p t.2)
find_port-get ((i, some peer) ∷ m) of p t h = ground (arith, find_port-get m of p t.2)

-- In a port table where no port has two entries and port 0 has none: where a peer, or the router
-- itself, has a port, the peer on that port is the same one.
pub get_peer_on_port-port :
    (r : Router) (of : PublicKey) (p : Port)
    → IsTable r.ports
    → port r of ≡ some p
    → get_peer_on_port r p ≡ some of
unfolding port get_peer_on_port
get_peer_on_port-port r of p t h = ground (arith, find_port-get r.ports of p t)

-- If no port has two entries and port 0 has none, then so it is after `get_new_port`.
pub get_new_port-IsTable : (r : Router) → IsTable r.ports → IsTable (get_new_port r).1.ports
get_new_port-IsTable r t =
    let (p, e, lo, free, below) = get_new_port_total r in
    rw e (insert-IsTable r.ports p none (λ zero_port. absurd (omega arith)) t)
