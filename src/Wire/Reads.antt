-- ===== src/Wire/Reads.antt =====
-- The readers of `decode` of src/wire_frame.rs on what the encoder wrote.
use rust_pinecone.Prelude.{
  ℕ, ◌+◌, ◌*◌, ◌%◌, ◌^◌, ◌<◌, ◌≡◌, refl, ap, ◌∙◌, arith, List, [], ◌∷◌, ◌++◌, append_assoc, length,
  All, Reply, ok,
}
use rust_pinecone.Bytes.{BytesMut, IsBigEndian}
use rust_pinecone.Bytes.Words.{be, of_be-be, length-be, read-cons, read-be}
use rust_pinecone.Tree.{Port, Root, RootAnnouncementSignature}
use rust_pinecone.Coordinates.{Coordinates}
use rust_pinecone.Wire.Decode.{
  get_bytes, decode_key, decode_signature, get_ports, get_coordinates, get_root, get_signatures,
  sub_u16, mul_u16,
}
use rust_pinecone.Wire.Layout.{ports_bytes, coordinates_bytes, root_bytes, signatures_bytes}

abbrev pub IsU64 : ℕ → Type 0
IsU64 n = n < 256 ^ 8

abbrev pub IsKey : ℕ → Type 0
IsKey n = n < 256 ^ 32

-- What the Rust types and the 16 bit counters can hold.
pub record CoordinatesFit (c : Coordinates) : Type 0 where
  pub ports : All IsU64 c.coordinates
  pub count : length c.coordinates < 2 ^ 16

pub record RootFits (r : Root) : Type 0 where
  pub key : IsKey r.public_key
  pub sequence : IsU64 r.sequence_number

pub record SignatureFits (s : RootAnnouncementSignature) : Type 0 where
  pub key : IsKey s.signing_public_key
  pub port : IsU64 s.destination_port
  pub bytes : s.signature < 256 ^ 64

module _ {b : BytesMut} (laws : IsBigEndian b) where
  pub get_bytes-append : (xs rest : List ℕ) → get_bytes b (length xs) (xs ++ rest) ≡ (ok xs, rest)
  unfolding get_bytes
  get_bytes-append [] rest = refl
  get_bytes-append (x ∷ xs) rest =
      rw (laws.get_u8_lem, read-cons x (xs ++ rest), get_bytes-append xs rest)

  get_be : (w n : ℕ) (rest : List ℕ) → get_bytes b w (be w n ++ rest) ≡ (ok (be w n), rest)
  get_be w n rest = rw (length-be w n) at (get_bytes-append (be w n) rest)

  pub decode_key-be :
      (key : ℕ) → IsKey key → (rest : List ℕ) → decode_key b (be 32 key ++ rest) ≡ (ok key, rest)
  unfolding decode_key
  decode_key-be key h rest = rw (get_be 32 key rest, of_be-be 32 key h)

  pub decode_signature-be :
      (s : ℕ) → s < 256 ^ 64 → (rest : List ℕ) → decode_signature b (be 64 s ++ rest) ≡ (ok s, rest)
  unfolding decode_signature
  decode_signature-be s h rest = rw (get_be 64 s rest, of_be-be 64 s h)

  pub get_u64-be : (n : ℕ) → IsU64 n → (rest : List ℕ) → b.get_u64 (be 8 n ++ rest) ≡ (ok n, rest)
  get_u64-be n h rest = laws.get_u64_lem _ ∙ read-be 8 n rest h

  pub get_u16-be :
      (n : ℕ) → n < 2 ^ 16 → (rest : List ℕ) → b.get_u16 (be 2 (n % 2 ^ 16) ++ rest) ≡ (ok n, rest)
  get_u16-be n h rest =
      laws.get_u16_lem _
      ∙ read-be 2 (n % 2 ^ 16) rest (omega arith)
      ∙ ap {B = Reply ℕ × List ℕ} (λ k. (ok k, rest)) (omega arith)

  pub get_ports-append :
      (ps : List Port)
      → All IsU64 ps
      → (rest : List ℕ) → get_ports b (length ps) (ports_bytes ps ++ rest) ≡ (ok ps, rest)
  unfolding get_ports ports_bytes
  get_ports-append [] h rest = refl
  get_ports-append (p ∷ ps) h rest = simp (append_assoc, get_u64-be p h.0, get_ports-append ps h.1)

  -- The count may be another list's length, if that is as long.
  pub get_ports-count :
      (ps : List Port) (n : ℕ)
      → n ≡ length ps
      → All IsU64 ps
      → (rest : List ℕ) → get_ports b n (ports_bytes ps ++ rest) ≡ (ok ps, rest)
  get_ports-count ps n e h rest = rw e (get_ports-append ps h rest)

  pub get_coordinates-append :
      (c : Coordinates)
      → CoordinatesFit c
      → (rest : List ℕ) → get_coordinates b (coordinates_bytes c ++ rest) ≡ (ok c, rest)
  unfolding get_coordinates coordinates_bytes
  get_coordinates-append c h rest =
      simp (append_assoc, get_u16-be _ h.count, get_ports-append c.coordinates h.ports)

  pub get_root-append :
      (r : Root) → RootFits r → (rest : List ℕ) → get_root b (root_bytes r ++ rest) ≡ (ok r, rest)
  unfolding get_root root_bytes
  get_root-append r h rest = simp (append_assoc, decode_key-be _ h.key, get_u64-be _ h.sequence)

  pub get_signatures-append :
      (sigs : List RootAnnouncementSignature)
      → All SignatureFits sigs
      → (rest : List ℕ)
      → get_signatures b (length sigs) (signatures_bytes sigs ++ rest) ≡ (ok sigs, rest)
  unfolding get_signatures signatures_bytes
  get_signatures-append [] h rest = refl
  get_signatures-append (s ∷ sigs) h rest = simp (
    append_assoc,
    decode_key-be _ h.0.key,
    get_u64-be _ h.0.port,
    decode_signature-be _ h.0.bytes,
    get_signatures-append sigs h.1,
  )

-- The differences and products of the decoder, where they do not overflow.
pub sub_u16-add : (x y z : ℕ) → x ≡ y + z → (src : List ℕ) → sub_u16 x y src ≡ (ok z, src)
unfolding sub_u16
sub_u16-add x y z h src = ground arith

pub mul_u16-lt : (x y : ℕ) → x * y < 2 ^ 16 → (src : List ℕ) → mul_u16 x y src ≡ (ok (x * y), src)
unfolding mul_u16
mul_u16-lt x y h src = ground arith
