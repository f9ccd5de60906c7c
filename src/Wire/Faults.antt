-- ===== src/Wire/Faults.antt =====
-- `decode` of src/wire_frame.rs on announcements that are cut short, and on tree packets whose two
-- coordinates differ in length.
use rust_pinecone.Prelude.{
  ℕ, zero, suc, ◌+◌, ◌*◌, ◌%◌, ◌^◌, ◌<◌, ◌≤◌, ◌≡◌, ◌≢◌, inl, inr, refl, sym, subst, ap, ◌∙◌, arith,
  List, [], ◌∷◌, ◌++◌, append_assoc, length, length-append, some, Reply, ok, err, panic, M, ◌>>=◌,
  and_then, pure,
}
use rust_pinecone.Bytes.{BytesMut, IsBigEndian}
use rust_pinecone.Bytes.Words.{be, length-be}
use rust_pinecone.Tree.{Port}
use rust_pinecone.Frames.{Frame, TreePacket, TreeAnnouncement, tree_routed, tree_announcement}
use rust_pinecone.Wire.Encode.{frame_length, frame_type, encode}
use rust_pinecone.Wire.Decode.{
  get_bytes, get_ports, get_signatures, sub_u16, mul_u16, decode_tree_announcement,
  decode_tree_routed, decode_body, decode,
}
use rust_pinecone.Wire.Layout.{body, header, encode-layout, head, root_bytes, length-root_bytes}
use rust_pinecone.Wire.Reads.{RootFits, get_u16-be, get_root-append}
use rust_pinecone.Wire.RoundTrip.{decode-head, frame_length-ge, room}
use rust_pinecone.Wire.Takes.{and_then-panic, get_signatures-Takes}

module _ {b : BytesMut} (laws : IsBigEndian b) where
  cut_short : (n : ℕ) (tail : List ℕ) → length tail < n * 104 → (get_signatures b n tail).0 ≡ panic
  cut_short n tail h = elim (get_signatures-Takes laws n tail) [
    | inl (short, p) ↦ p
    | inr (sigs, rest, p, l) ↦ absurd (omega arith)
  ]

  cut_body :
      (now n len : ℕ) (a : TreeAnnouncement) (tail : List ℕ)
      → RootFits a.root
      → n < 2 ^ 16
      → length tail < n * 104
      → (decode_body b now 1 len (root_bytes a.root ++ (be 2 (n % 2 ^ 16) ++ tail))).0 ≡ panic
  unfolding decode_body decode_tree_announcement
  cut_body now n len a tail h fits short =
      simp (get_root-append laws a.root h, get_u16-be laws n fits)
        (and_then-panic _ _ (cut_short n tail short))

  cut_room :
      (a : TreeAnnouncement) (n : ℕ) (tail : List ℕ)
      → n * 40 ≤ length tail
      → 10 + 32 + 8 + 2 + n * (32 + 8)
        ≤ 10 + length (root_bytes a.root ++ (be 2 (n % 2 ^ 16) ++ tail))
  cut_room a n tail h = simp (length-append, length-root_bytes, length-be) (omega arith)

  -- With a buffer that keeps the crate's big-endian contract, an announcement of less than 2^16
  -- bytes announced length whose root fits: decoding panics where at least 40, but less than 104
  -- bytes for each signature have arrived behind the signature count.
  pub decode_cut_announcement :
      (now : ℕ) (a : TreeAnnouncement) (tail : List ℕ)
      → RootFits a.root
      → frame_length (tree_announcement a) < 2 ^ 16
      → length a.signatures * 40 ≤ length tail
      → length tail < length a.signatures * 104
      → (decode b now (
          head 1 (frame_length (tree_announcement a))
          ++ (root_bytes a.root ++ (be 2 (length a.signatures % 2 ^ 16) ++ tail)))).0
        ≡ panic
  unfolding frame_length
  decode_cut_announcement now a tail h fits lo hi =
      let n : ℕ = length a.signatures in
      rw
        (decode-head laws now 1 (10 + 32 + 8 + 2 + n * (32 + 8))
          (root_bytes a.root ++ (be 2 (n % 2 ^ 16) ++ tail)) (omega arith) (omega arith) fits
          (cut_room a n tail lo))
        (and_then-panic _ _ (cut_body now n _ a tail h (omega arith) hi))

-- Every result of the reader has the property.
abbrev Yields : {A : Type 0} → (A → Type 0) → M (List ℕ) A → Type 0
Yields {A} P m = (src rest : List ℕ) (a : A) → m src ≡ (ok a, rest) → P a

abbrev value_or : {A : Type 0} → A → Reply A → A
value_or d (ok a) = a
value_or d (err e) = d
value_or d panic = d

pure-Yields : {A : Type 0} (P : A → Type 0) (a : A) → P a → Yields P (pure a)
pure-Yields P a h src rest c e = subst P (ap (λ r. value_or a r.0) e) h

module _ {A B : Type 0} where
  and_then-eq_ok :
      (r : Reply A × List ℕ) (f : A → M (List ℕ) B) (c : B) (rest : List ℕ)
      → and_then r f ≡ (ok c, rest)
      → (a : A) × (s : List ℕ) × (r ≡ (ok a, s)) × (f a s ≡ (ok c, rest))
  and_then-eq_ok (ok a, s) f c rest h = (a, s, refl, h)
  and_then-eq_ok (err e, s) f c rest h = cc
  and_then-eq_ok (panic, s) f c rest h = cc

  bind-Yields :
      (P : B → Type 0) (Q : A → Type 0) (m : M (List ℕ) A) (f : A → M (List ℕ) B)
      → Yields Q m
      → ((a : A) → Q a → Yields P (f a))
      → Yields P (m >>= f)
  bind-Yields P Q m f h k src rest c e =
      let (a, s, p, q) = and_then-eq_ok (m src) f c rest e in k a (h src s a p) s rest c q

  any-Yields :
      (P : B → Type 0) (m : M (List ℕ) A) (f : A → M (List ℕ) B)
      → ((a : A) → Yields P (f a))
      → Yields P (m >>= f)
  any-Yields P m f k src rest c e =
      let (a, s, p, q) = and_then-eq_ok (m src) f c rest e in k a s rest c q

abbrev EqualLengths : Frame → Type 0
EqualLengths (tree_routed p) =
    length p.source_coordinates.coordinates ≡ length p.destination_coordinates.coordinates
EqualLengths f = Unit {0}

module _ (b : BytesMut) where
  get_ports-Yields : (n : ℕ) → Yields (λ ps. length ps ≡ n) (get_ports b n)
  unfolding get_ports
  get_ports-Yields zero src rest ps e = ground arith
  get_ports-Yields (suc n) src rest qs e =
      any-Yields (λ qs. length qs ≡ suc n) b.get_u64 _
        (λ p.
          bind-Yields (λ qs. length qs ≡ suc n) (λ ps. length ps ≡ n) (get_ports b n) _
            (get_ports-Yields n)
            (λ ps l. pure-Yields (λ qs. length qs ≡ suc n) (p ∷ ps) (ap suc l)))
        src rest qs e

  payload :
      (len n m : ℕ) (dest source : List Port)
      → length source ≡ length dest
      → Yields EqualLengths (do
        l ← sub_u16 len 10
        l ← sub_u16 l 4
        dest_bytes ← mul_u16 n 8
        l ← sub_u16 l dest_bytes
        source_bytes ← mul_u16 m 8
        payload_len ← sub_u16 l source_bytes
        bytes ← get_bytes b payload_len
        pure (
            tree_routed (record {
              source_coordinates = record { coordinates = source };
              destination_coordinates = record { coordinates = dest };
              payload = bytes;
            })))
  payload len n m dest source h = any-Yields EqualLengths (sub_u16 len 10) _ λ l1.
      any-Yields EqualLengths (sub_u16 l1 4) _ λ l2. any-Yields EqualLengths (mul_u16 n 8) _ λ m1.
        any-Yields EqualLengths (sub_u16 l2 m1) _ λ l3.
          any-Yields EqualLengths (mul_u16 m 8) _ λ m2.
            any-Yields EqualLengths (sub_u16 l3 m2) _
              λ l4. any-Yields EqualLengths (get_bytes b l4) _ λ bytes. pure-Yields EqualLengths _ h

  decode_tree_routed-Yields : (len : ℕ) → Yields EqualLengths (decode_tree_routed b len)
  unfolding decode_tree_routed
  decode_tree_routed-Yields len = any-Yields EqualLengths b.get_u16 _ λ n.
      bind-Yields EqualLengths (λ dest. length dest ≡ n) (get_ports b n) _ (get_ports-Yields n)
        λ dest d. any-Yields EqualLengths b.get_u16 _ λ source_len.
          bind-Yields EqualLengths (λ source. length source ≡ n) (get_ports b n) _
            (get_ports-Yields n) λ source s. payload len n source_len dest source (s ∙ sym d)

module _ {b : BytesMut} (laws : IsBigEndian b) where
  decode_as_tree_routed :
      (now len : ℕ) (tail rest : List ℕ) (p : TreePacket)
      → 10 ≤ len
      → len < 2 ^ 16
      → len ≤ 10 + length tail
      → decode b now (head 2 len ++ tail) ≡ (ok (some (tree_routed p)), rest)
      → EqualLengths (tree_routed p)
  unfolding decode_body
  decode_as_tree_routed now len tail rest p lo hi fits e =
      let (f, s, h, q) =
        and_then-eq_ok _ (λ f src. (ok (some f), src)) _ rest
          (rw (decode-head laws now 2 len tail (omega arith) lo hi fits) at e) in
      subst EqualLengths {y = tree_routed p} (cc q) (decode_tree_routed-Yields b len tail s f h)

  -- With a buffer that keeps the crate's big-endian contract, a tree packet of less than 2^16
  -- bytes announced length whose source and destination coordinates differ in length is not what
  -- decoding its encoding gives.
  pub decode-encode_unequal :
      (now : ℕ) (p : TreePacket) (rest : List ℕ)
      → frame_length (tree_routed p) < 2 ^ 16
      → length p.source_coordinates.coordinates ≢ length p.destination_coordinates.coordinates
      → and_then (encode b (tree_routed p) []) (λ _ src. decode b now (src ++ rest))
        ≢ (ok (some (tree_routed p)), rest)
  unfolding header frame_type
  decode-encode_unequal now p rest fits h e = h (
      decode_as_tree_routed now (frame_length (tree_routed p)) (body (tree_routed p) ++ rest) rest p
        (frame_length-ge (tree_routed p)) fits (room (tree_routed p) rest)
        (rw ((encode-layout laws (tree_routed p) 0 []).0, append_assoc) at e))
