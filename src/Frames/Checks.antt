-- ===== src/Frames/Checks.antt =====
-- The loops of `is_clean` of src/frames.rs on a list with one more signature.
use rust_pinecone.Prelude.{
  ℕ, zero, suc, ◌+◌, ◌-◌, ◌<◌, ◌≡◌, ◌≢◌, refl, arith, Bool, false, not, ◌&&◌, ◌||◌, List, [], ◌∷◌,
  ◌++◌, some, length, length-append, get_elem?, last?, ◌==◌,
}
use mathlib.Core.Path.{ap₂}
use rust_pinecone.Bytes.{BytesMut}
use rust_pinecone.Bytes.Words.{be}
use rust_pinecone.Tree.{RootAnnouncementSignature}
use rust_pinecone.Frames.Announcement.{
  Ed25519, range_from, any, same_key, same_signer, has_loop, put_signer, put_signatures, verify_all,
}

module _ {ℓ} {A : Type ℓ} where
  pub any-append : (p : A → Bool) (xs ys : List A) → any p (xs ++ ys) ≡ (any p xs || any p ys)
  unfolding any
  any-append p [] ys = refl
  any-append p (x ∷ xs) ys = ground (arith, any-append p xs ys)

  pub last?-append : (xs : List A) (x : A) → last? (xs ++ x ∷ []) ≡ some x
  last?-append [] x = refl
  last?-append (y ∷ []) x = refl
  last?-append (y ∷ z ∷ xs) x = last?-append (z ∷ xs) x

  pub get_elem?-append :
      (xs ys : List A) (i : ℕ) → i < length xs → get_elem? (xs ++ ys) i ≡ get_elem? xs i
  get_elem?-append [] ys i h = elim h [ ]
  get_elem?-append (x ∷ xs) ys zero h = refl
  get_elem?-append (x ∷ xs) ys (suc i) h = get_elem?-append xs ys i (omega arith)

pub any-range_from :
    (p : ℕ → Bool) (i n : ℕ) → ((k : ℕ) → k < i + n → p k ≡ false) → any p (range_from i n) ≡ false
unfolding any range_from
any-range_from p i zero h = refl
any-range_from p i (suc n) h =
    ground (arith, h i, any-range_from p (suc i) n (λ k lt. h k (omega arith)))

-- No two of the signatures are by one signer.
abbrev pub Distinct : List RootAnnouncementSignature → Type 0
Distinct sigs = (i j : ℕ) → i < length sigs → j < length sigs → i ≢ j → same_signer sigs i j ≡ false

pub same_signer-append :
    (sigs more : List RootAnnouncementSignature) (i j : ℕ)
    → i < length sigs
    → j < length sigs
    → same_signer (sigs ++ more) i j ≡ same_signer sigs i j
unfolding same_signer
same_signer-append sigs more i j hi hj =
    ap₂ same_key (get_elem?-append sigs more i hi) (get_elem?-append sigs more j hj)

-- The loops leave out the last signature: distinct earlier signers are enough.
pub has_loop-append :
    (sigs : List RootAnnouncementSignature) (s : RootAnnouncementSignature)
    → Distinct sigs
    → has_loop (sigs ++ s ∷ []) ≡ false
unfolding has_loop
has_loop-append sigs s h =
    any-range_from _ 0 _ λ i hi. any-range_from _ 0 _ λ j hj. one i j (bound i hi) (bound j hj)
  where
    bound : (k : ℕ) → k < 0 + (length (sigs ++ s ∷ []) - 1) → k < length sigs
    bound k h = omega (arith, length-append sigs (s ∷ []))

    one :
        (i j : ℕ)
        → i < length sigs
        → j < length sigs
        → (not (i == j) && same_signer (sigs ++ s ∷ []) i j) ≡ false
    one i j hi hj = rw (same_signer-append sigs (s ∷ []) i j hi hj) (ground (arith, h i j hi hj))

module _ (b : BytesMut) (c : Ed25519) where
  pub verify_all-append :
      (buf : List ℕ) (xs ys : List RootAnnouncementSignature)
      → verify_all b c buf (xs ++ ys)
        ≡ (verify_all b c buf xs && verify_all b c (put_signatures b c xs buf) ys)
  unfolding verify_all put_signatures
  verify_all-append buf [] ys = refl
  verify_all-append buf (x ∷ xs) ys = ground (
    arith,
    verify_all-append
        (b.put_slice (be 64 x.signature)
          (put_signer b c x.signing_public_key x.destination_port buf))
        xs ys,
  )
