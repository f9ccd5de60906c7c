-- ===== src/Tree/Order.antt =====
-- `Ord` and `PartialEq` for `Root` of src/tree.rs: laws of the order.
use rust_pinecone.Prelude.{◌≡◌, ◌↔◌, ◌<◌, ◌⊎◌, true, false, arith}
use Prim.Native.Nat.{Ordering}
use rust_pinecone.Tree.{Root, cmp, root_eq, root_lt}

pub root_eq_iff : (r s : Root) → (root_eq r s ≡ true) ↔ (r ≡ s)
root_eq_iff r s = ground arith

-- The comparison says equal exactly for equal roots.
pub cmp-eq_iff : (r s : Root) → (cmp r s ≡ Ordering.eq) ↔ (r ≡ s)
unfolding cmp
cmp-eq_iff r s = ground arith

-- A root is below another exactly if its key is lower, or the keys are equal and its sequence
-- number is lower.
pub root_lt_iff :
    (r s : Root)
    → (root_lt r s ≡ true) ↔ (
        (r.public_key < s.public_key)
        ⊎ ((r.public_key ≡ s.public_key) × (r.sequence_number < s.sequence_number)))
unfolding cmp
root_lt_iff r s = ground arith

pub root_lt_trans : (r s t : Root) → root_lt r s ≡ true → root_lt s t ≡ true → root_lt r t ≡ true
unfolding cmp
root_lt_trans r s t h k = ground arith

pub root_lt_connected : (r s : Root) → root_lt r s ≡ false → root_lt s r ≡ false → r ≡ s
unfolding cmp
root_lt_connected r s h k = ground arith

-- `r` is not above `s`.
abbrev pub RootLe : Root → Root → Type 0
RootLe r s = root_lt s r ≡ false

pub RootLe-refl : (r : Root) → RootLe r r
unfolding cmp
RootLe-refl r = ground arith

pub RootLe-trans : (r s t : Root) → RootLe r s → RootLe s t → RootLe r t
unfolding cmp
RootLe-trans r s t h k = ground arith
