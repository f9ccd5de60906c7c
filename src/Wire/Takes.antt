-- ===== src/Wire/Takes.antt =====
-- The readers of `decode` of src/wire_frame.rs: how many bytes they take.
use rust_pinecone.Prelude.{
  ℕ, zero, suc, ◌+◌, ◌*◌, ◌<◌, ◌≡◌, ◌⊎◌, inl, inr, refl, arith, List, [], ◌∷◌, length, Reply, ok,
  panic, M, ◌>>=◌, and_then, pure, leb, Bool-cases, leb→le, leb→lt,
}
use rust_pinecone.Bytes.{BytesMut, IsBigEndian}
use rust_pinecone.Bytes.Words.{read, read_acc-takes, read-short}
use rust_pinecone.Wire.Decode.{get_bytes, decode_key, decode_signature, get_root, get_signatures}

-- The two outcomes of a reader of `w` bytes.
abbrev pub Outcome : {A : Type 0} → ℕ → M (List ℕ) A → List ℕ → Type 0
Outcome {A} w m src =
    ((length src < w) × ((m src).0 ≡ panic))
    ⊎ ((a : A) × (rest : List ℕ) × (m src ≡ (ok a, rest)) × (length src ≡ w + length rest))

abbrev pub Takes : {A : Type 0} → ℕ → M (List ℕ) A → Type 0
Takes w m = (src : List ℕ) → Outcome w m src

pub pure-Takes : {A : Type 0} (a : A) → Takes 0 (pure a)
pure-Takes a src = inr (a, src, refl, omega arith)

module _ {A B : Type 0} where
  pub and_then-panic :
      (r : Reply A × List ℕ) (f : A → M (List ℕ) B) → r.0 ≡ panic → (and_then r f).0 ≡ panic
  and_then-panic (ok a, s) f h = cc
  and_then-panic (Reply.err e, s) f h = cc
  and_then-panic (panic, s) f h = refl

  pub bind-Takes :
      (v w u : ℕ) (m : M (List ℕ) A) (f : A → M (List ℕ) B)
      → u ≡ v + w
      → Takes v m
      → ((a : A) → Takes w (f a))
      → Takes u (m >>= f)
  bind-Takes v w u m f e h k src = elim (h src) [
    | inl (short, p) ↦ inl (omega arith, and_then-panic (m src) f p)
    | inr (a, rest, p, l) ↦ elim (k a rest) [
      | inl (short, q) ↦ inl (omega arith, rw p q)
      | inr (c, rest', q, l') ↦ inr (c, rest', rw p q, omega arith)
    ]
  ]

pub read-Takes : (w : ℕ) → Takes w (read w)
unfolding read
read-Takes w src = elim (Bool-cases (leb w (length src))) [
  | inl enough ↦
      let (n, rest, p, l) = read_acc-takes w 0 src (leb→le _ _ enough) in inr (n, rest, p, l)
  | inr short ↦ let lt : length src < w = leb→lt _ _ short in inl (lt, rw (read-short w src lt))
]

module _ {b : BytesMut} (laws : IsBigEndian b) where
  get_u8-Takes : Takes 1 b.get_u8
  get_u8-Takes src = rw (laws.get_u8_lem src) (read-Takes 1 src)

  pub get_u16-Takes : Takes 2 b.get_u16
  get_u16-Takes src = rw (laws.get_u16_lem src) (read-Takes 2 src)

  get_u64-Takes : Takes 8 b.get_u64
  get_u64-Takes src = rw (laws.get_u64_lem src) (read-Takes 8 src)

  get_bytes-Takes : (n : ℕ) → Takes n (get_bytes b n)
  unfolding get_bytes
  get_bytes-Takes zero = pure-Takes []
  get_bytes-Takes (suc n) =
      bind-Takes 1 n (suc n) _ _ (omega arith) get_u8-Takes
        λ x. bind-Takes n 0 n _ _ (omega arith) (get_bytes-Takes n) λ xs. pure-Takes (x ∷ xs)

  decode_key-Takes : Takes 32 (decode_key b)
  unfolding decode_key
  decode_key-Takes = bind-Takes 32 0 32 _ _ refl (get_bytes-Takes 32) λ bytes. pure-Takes _

  decode_signature-Takes : Takes 64 (decode_signature b)
  unfolding decode_signature
  decode_signature-Takes = bind-Takes 64 0 64 _ _ refl (get_bytes-Takes 64) λ bytes. pure-Takes _

  pub get_root-Takes : Takes 40 (get_root b)
  unfolding get_root
  get_root-Takes =
      bind-Takes 32 8 40 _ _ refl decode_key-Takes
        λ k. bind-Takes 8 0 8 _ _ refl get_u64-Takes λ n. pure-Takes _

  pub get_signatures-Takes : (n : ℕ) → Takes (n * 104) (get_signatures b n)
  unfolding get_signatures
  get_signatures-Takes zero = pure-Takes []
  get_signatures-Takes (suc n) =
      bind-Takes 32 (72 + n * 104) _ _ _ (omega arith) decode_key-Takes λ k.
        bind-Takes 8 (64 + n * 104) _ _ _ (omega arith) get_u64-Takes λ p.
          bind-Takes 64 (n * 104) _ _ _ (omega arith) decode_signature-Takes λ s.
            bind-Takes (n * 104) 0 _ _ _ (omega arith) (get_signatures-Takes n) λ sigs. pure-Takes _
