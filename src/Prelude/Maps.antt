-- ===== src/Prelude/Maps.antt =====
-- Hash maps as association lists. The order of the list stands for the map's iteration order,
-- which the program does not control.
use mathlib.Core.Path.{◌≡◌, refl, subst}
use mathlib.Core.Logic.{◌↔◌, inl, inr}
use mathlib.Core.Bool.{Bool, true, false}
use mathlib.Core.List.{List, [], ◌∷◌}
use mathlib.Core.Option.{Option, none, some}
use native.Mathlib.Omega.{arith}
use Prim.Native.Nat.{ℕ}
use rust_pinecone.Prelude.Tests.{◌==◌ as nat_beq, ==_iff, if◌then◌else◌, Bool-cases}
use rust_pinecone.Prelude.Lists.{All}

pub record Eq {ℓ} (A : Type ℓ) : Type ℓ where
  pub beq : A → A → Bool
  pub beq_iff : (a b : A) → (beq a b ≡ true) ↔ (a ≡ b)

instance abbrev pub nat_eq : Eq ℕ
nat_eq = record { beq = nat_beq; beq_iff = ==_iff }

abbrev pub HashMap {ℓ κ} : Type ℓ → Type κ → Type (ℓ ⊔ κ)
HashMap K V = List (K × V)

module _ {ℓ κ} {K : Type ℓ} {V : Type κ} ⦃e : Eq K⦄ where
  unfoldable pub get : HashMap K V → K → Option V
  get [] k = none
  get ((j, v) ∷ m) k = if e.beq j k then some v else get m k

  unfoldable pub insert : HashMap K V → K → V → HashMap K V
  insert [] k v = (k, v) ∷ []
  insert ((j, w) ∷ m) k v = if e.beq j k then (k, v) ∷ m else (j, w) ∷ insert m k v

  unfoldable pub remove : HashMap K V → K → HashMap K V
  remove [] k = []
  remove ((j, w) ∷ m) k = if e.beq j k then remove m k else (j, w) ∷ remove m k

  unfoldable pub contains_key : HashMap K V → K → Bool
  contains_key [] k = false
  contains_key ((j, v) ∷ m) k = if e.beq j k then true else contains_key m k

  pub get-insert :
      (m : HashMap K V) (k j : K) (v : V)
      → get (insert m k v) j ≡ (if e.beq k j then some v else get m j)
  unfolding get insert
  get-insert [] k j v = refl
  get-insert ((i, w) ∷ m) k j v =
      ground (arith, e.beq_iff k j, e.beq_iff i k, e.beq_iff i j, get-insert m k j v)

  pub get-remove :
      (m : HashMap K V) (k j : K) → get (remove m k) j ≡ (if e.beq k j then none else get m j)
  unfolding get remove
  get-remove [] k j = ground arith
  get-remove ((i, w) ∷ m) k j =
      ground (arith, e.beq_iff k j, e.beq_iff i k, e.beq_iff i j, get-remove m k j)

  pub contains_key-get : (m : HashMap K V) (k : K) → contains_key m k ≡ false → get m k ≡ none
  unfolding get contains_key
  contains_key-get [] k h = refl
  contains_key-get ((j, v) ∷ m) k h = ground (arith, contains_key-get m k)

  -- What every value of a map has, the one that is found has.
  pub All-get {μ} :
      (P : V → Type μ) (m : HashMap K V) (k : K) (v : V)
      → All (λ (x : K × V). P x.1) m
      → get m k ≡ some v
      → P v
  unfolding get
  All-get P [] k v h found = absurd (cc found)
  All-get P ((j, w) ∷ m) k v h found = elim (Bool-cases (e.beq j k)) [
    | inl same ↦ subst P (cc (rw (same, get) at found)) h.0
    | inr other ↦ All-get P m k v h.1 (rw other at found)
  ]

  pub All-insert {μ} :
      (P : V → Type μ) (m : HashMap K V) (k : K) (v : V)
      → All (λ (x : K × V). P x.1) m
      → P v
      → All (λ (x : K × V). P x.1) (insert m k v)
  unfolding insert
  All-insert P [] k v h p = (p, tt)
  All-insert P ((j, w) ∷ m) k v h p = elim (Bool-cases (e.beq j k)) [
    | inl same ↦ rw (same, insert) (p, h.1)
    | inr other ↦ rw (other, insert) (h.0, All-insert P m k v h.1 p)
  ]
