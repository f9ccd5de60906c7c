-- ===== src/Tree/Keys.antt =====
-- Keys of src/router.rs, `[u8; 32]`: the order of arrays of bytes and of the numbers that they spell.
use rust_pinecone.Prelude.{
  ℕ, ◌+◌, ◌*◌, ◌<◌, ◌≡◌, Bool, true, false, List, [], ◌∷◌, arith, length, All, ltb, if◌then◌else◌,
}
use rust_pinecone.Bytes.Words.{of_be}

-- `<` on two arrays: the first place where they differ decides.
unfoldable pub array_lt : List ℕ → List ℕ → Bool
array_lt [] ys = false
array_lt (x ∷ xs) [] = false
array_lt (x ∷ xs) (y ∷ ys) = if ltb x y then true else if ltb y x then false else array_lt xs ys

abbrev IsByte : ℕ → Type 0
IsByte x = x < 256

-- A lead in the digits read so far is kept.
of_be_lead :
    (a b : ℕ) (xs ys : List ℕ)
    → length xs ≡ length ys
    → All IsByte xs
    → All IsByte ys
    → a < b
    → of_be a xs < of_be b ys
unfolding of_be
of_be_lead a b [] [] h p q lt = lt
of_be_lead a b [] (y ∷ ys) h p q lt = absurd (omega arith)
of_be_lead a b (x ∷ xs) [] h p q lt = absurd (omega arith)
of_be_lead a b (x ∷ xs) (y ∷ ys) h p q lt =
    of_be_lead (a * 256 + x) (b * 256 + y) xs ys (omega arith) p.1 q.1 (omega arith)

ltb-of_be_from :
    (a : ℕ) (xs ys : List ℕ)
    → length xs ≡ length ys
    → All IsByte xs
    → All IsByte ys
    → ltb (of_be a xs) (of_be a ys) ≡ array_lt xs ys
unfolding of_be array_lt
ltb-of_be_from a [] [] h p q = ground arith
ltb-of_be_from a [] (y ∷ ys) h p q = absurd (omega arith)
ltb-of_be_from a (x ∷ xs) [] h p q = absurd (omega arith)
ltb-of_be_from a (x ∷ xs) (y ∷ ys) h p q = ground (
  arith,
  of_be_lead (a * 256 + x) (a * 256 + y) xs ys (omega arith) p.1 q.1,
  of_be_lead (a * 256 + y) (a * 256 + x) ys xs (omega arith) q.1 p.1,
  ltb-of_be_from (a * 256 + x) xs ys (omega arith) p.1 q.1,
)

-- Two arrays of bytes of one length compare as the numbers that they spell.
pub ltb-of_be :
    (xs ys : List ℕ)
    → length xs ≡ length ys
    → All IsByte xs
    → All IsByte ys
    → ltb (of_be 0 xs) (of_be 0 ys) ≡ array_lt xs ys
ltb-of_be xs ys h p q = ltb-of_be_from 0 xs ys h p q
