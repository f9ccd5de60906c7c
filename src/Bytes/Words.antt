-- ===== src/Bytes/Words.antt =====
-- Numbers as big-endian bytes, and reading them back.
use native.Mathlib.Nat.{pow-suc}
use rust_pinecone.Prelude.{
  ℕ, zero, suc, ◌+◌, ◌*◌, ◌/◌, ◌%◌, ◌^◌, ◌≤◌, ◌<◌, ◌≡◌, refl, ap, arith, List, [], ◌∷◌, ◌++◌,
  length, length-append, All, All-append, Reply, ok, panic, M,
}

-- The `w` lowest bytes of `n`, the most significant one first.
unfoldable pub be : ℕ → ℕ → List ℕ
be zero n = []
be (suc w) n = be w (n / 256) ++ (n % 256) ∷ []

-- The number that a run of bytes stands for, behind the digits read before.
unfoldable pub of_be : ℕ → List ℕ → ℕ
of_be acc [] = acc
of_be acc (x ∷ xs) = of_be (acc * 256 + x) xs

-- Read `w` bytes into a number.
unfoldable pub read_acc : ℕ → ℕ → M (List ℕ) ℕ
read_acc zero acc src = (ok acc, src)
read_acc (suc w) acc [] = (panic, [])
read_acc (suc w) acc (x ∷ xs) = read_acc w (acc * 256 + x) xs

unfoldable pub read : ℕ → M (List ℕ) ℕ
read w src = read_acc w 0 src

pub length-be : (w n : ℕ) → length (be w n) ≡ w
unfolding be
length-be zero n = refl
length-be (suc w) n =
    omega (arith, length-append (be w (n / 256)) (n % 256 ∷ []), length-be w (n / 256))

-- Every element of a written number is a byte.
pub IsByte-be : (w n : ℕ) → All (λ x. x < 256) (be w n)
unfolding be
IsByte-be zero n = tt
IsByte-be (suc w) n = All-append _ (be w (n / 256)) _ (IsByte-be w (n / 256)) (omega arith, tt)

pub read_acc-append :
    (w acc : ℕ) (xs rest : List ℕ)
    → length xs ≡ w
    → read_acc w acc (xs ++ rest) ≡ (ok (of_be acc xs), rest)
unfolding read_acc of_be
read_acc-append zero acc [] rest h = refl
read_acc-append zero acc (x ∷ xs) rest h = absurd (omega arith)
read_acc-append (suc w) acc [] rest h = absurd (omega arith)
read_acc-append (suc w) acc (x ∷ xs) rest h =
    read_acc-append w (acc * 256 + x) xs rest (omega arith)

of_be-append : (acc : ℕ) (xs : List ℕ) (x : ℕ) → of_be acc (xs ++ x ∷ []) ≡ of_be acc xs * 256 + x
unfolding of_be
of_be-append acc [] x = refl
of_be-append acc (y ∷ ys) x = of_be-append (acc * 256 + y) ys x

digit : (w n : ℕ) → n < 256 ^ suc w → n / 256 < 256 ^ w
digit w n h = omega (arith, pow-suc 256 w)

pub of_be-be : (w n : ℕ) → n < 256 ^ w → of_be 0 (be w n) ≡ n
unfolding be
of_be-be zero n h = unfold of_be in omega arith
of_be-be (suc w) n h =
    omega (arith, of_be-append 0 (be w (n / 256)) (n % 256), of_be-be w (n / 256) (digit w n h))

-- A number that fits is read back, and what follows it is left.
pub read-be : (w n : ℕ) (rest : List ℕ) → n < 256 ^ w → read w (be w n ++ rest) ≡ (ok n, rest)
unfolding read read_acc
read-be w n rest h = rw (read_acc-append w 0 (be w n) rest (length-be w n), of_be-be w n h)

pub read-cons : (x : ℕ) (rest : List ℕ) → read 1 (x ∷ rest) ≡ (ok x, rest)
unfolding read read_acc
read-cons x rest = ap {B = Reply ℕ × List ℕ} (λ n. (ok n, rest)) (omega arith)

pub read_acc-short : (w acc : ℕ) (src : List ℕ) → length src < w → read_acc w acc src ≡ (panic, [])
unfolding read_acc
read_acc-short zero acc src h = elim h [ ]
read_acc-short (suc w) acc [] h = refl
read_acc-short (suc w) acc (x ∷ xs) h = read_acc-short w (acc * 256 + x) xs (omega arith)

-- A read past the end panics.
pub read-short : (w : ℕ) (src : List ℕ) → length src < w → read w src ≡ (panic, [])
unfolding read
read-short w src h = read_acc-short w 0 src h

pub read_acc-takes :
    (w acc : ℕ) (src : List ℕ)
    → w ≤ length src
    → (n : ℕ) × (rest : List ℕ) × (read_acc w acc src ≡ (ok n, rest))
      × (length src ≡ w + length rest)
unfolding read_acc
read_acc-takes zero acc src h = (acc, src, refl, omega arith)
read_acc-takes (suc w) acc [] h = absurd (omega arith)
read_acc-takes (suc w) acc (x ∷ xs) h =
    let (n, rest, p, l) = read_acc-takes w (acc * 256 + x) xs (omega arith) in
    (n, rest, p, omega arith)
