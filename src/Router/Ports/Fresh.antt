-- ===== src/Router/Ports/Fresh.antt =====
-- `get_new_port` of src/router.rs: the port that it finds.
use rust_pinecone.Prelude.{
  ℕ, zero, suc, ◌<◌, ◌≤◌, ◌≡◌, inl, inr, arith, true, false, [], ◌∷◌, Option, none, some, length,
  leb, ◌==◌, ==_iff, Bool-cases, if◌then◌else◌, ok,
}
use rust_pinecone.Prelude.Maps.{HashMap, nat_eq, insert, contains_key}
use rust_pinecone.Tree.{PublicKey, Port}
use rust_pinecone.Router.State.{Router}
use rust_pinecone.Router.Ports.{free_port, get_new_port}

abbrev Table : Type 0
Table = HashMap Port (Option PublicKey)

-- How many entries have a key of at least `i`.
count_from : Table → ℕ → ℕ
count_from [] i = 0
count_from ((p, v) ∷ rest) i = if leb i p then suc (count_from rest i) else count_from rest i

count_from-le : (m : Table) (i : ℕ) → count_from m i ≤ length m
unfolding count_from
count_from-le [] i = omega arith
count_from-le ((p, v) ∷ rest) i = ground (arith, count_from-le rest i)

count_from_mono : (m : Table) (i : ℕ) → count_from m (suc i) ≤ count_from m i
unfolding count_from
count_from_mono [] i = omega arith
count_from_mono ((p, v) ∷ rest) i = ground (arith, count_from_mono rest i)

-- A used port is counted once less from the next one on.
count_from-used :
    (m : Table) (i : ℕ) → contains_key m i ≡ true → count_from m (suc i) < count_from m i
unfolding count_from contains_key
count_from-used [] i h = cc
count_from-used ((p, v) ∷ rest) i h = ground (arith, count_from-used rest i, count_from_mono rest i)

-- The port found is free, and every lower one from the start on is used.
free_port_total :
    (fuel : ℕ) (m : Table) (i : ℕ)
    → count_from m i < fuel
    → (p : ℕ) × (free_port fuel m i ≡ some p)
      × (i ≤ p)
      × (contains_key m p ≡ false)
      × ((j : ℕ) → i ≤ j → j < p → contains_key m j ≡ true)
unfolding free_port
free_port_total zero m i h = elim h [ ]
free_port_total (suc fuel) m i h = elim (Bool-cases (contains_key m i)) [
  | inr free ↦ (i, rw free, omega arith, free, λ j lo hi. absurd (omega arith))
  | inl used ↦
      let (p, e, lo, f, below) =
        free_port_total fuel m (suc i) (omega (arith, count_from-used m i used)) in
      (
        p,
        rw (used, e),
        omega arith,
        f,
        λ j lo' hi. elim (Bool-cases (j == i)) [
          | inl same ↦ rw ((==_iff j i).0 same) used
          | inr other ↦ below j (ground arith) hi
        ],
      )
]

-- `get_new_port` always returns: the lowest port from 1 on that has no entry, which gets an entry
-- without a peer, and nothing else of the router changes.
pub get_new_port_total :
    (r : Router)
    → (p : Port) × (get_new_port r ≡ (ok p, record r { ports = insert r.ports p none }))
      × (1 ≤ p)
      × (contains_key r.ports p ≡ false)
      × ((q : Port) → 1 ≤ q → q < p → contains_key r.ports q ≡ true)
unfolding get_new_port
get_new_port_total r =
    let (p, e, lo, f, below) =
      free_port_total (suc (length r.ports)) r.ports 1 (omega (arith, count_from-le r.ports 1)) in
    (p, rw (e, get_new_port), lo, f, below)
