-- ===== src/Wire/Refusals.antt =====
-- `decode` of src/wire_frame.rs on bytes that are not a whole frame.
use rust_pinecone.Prelude.{
  ◌&&◌, not, leb, if◌then◌else◌, ℕ, zero, suc, ◌+◌, ◌-◌, ◌^◌, ◌<◌, ◌≤◌, ◌≡◌, arith, List, [], ◌∷◌,
  ◌++◌, length, none, ok, err, panic, decoding_error,
}
use rust_pinecone.Bytes.{BytesMut, IsBigEndian}
use rust_pinecone.Bytes.Words.{be, read, read_acc, read-cons, read-short}
use rust_pinecone.Wire.Encode.{frame_magic_bytes}
use rust_pinecone.Wire.Decode.{
  get_bytes, check_length, decode_versioned, decode_header, decode, starts_with,
}
use rust_pinecone.Wire.Layout.{head}
use rust_pinecone.Wire.Reads.{sub_u16-add}
use rust_pinecone.Wire.RoundTrip.{read_kind, read_len}

-- With fewer than 10 bytes in the buffer decoding takes none of them: it waits for more, or
-- returns an error where at least four are there and do not start with the magic bytes.
pub decode_incomplete :
    (b : BytesMut) (now : ℕ) (src : List ℕ)
    → length src < 10
    → decode b now src ≡ (
      if leb 4 (length src) && not (starts_with src frame_magic_bytes)
          then err (decoding_error "Magic Bytes not found")
          else ok none,
      src,
    )
unfolding decode
decode_incomplete b now src h = ground arith

module _ {b : BytesMut} (laws : IsBigEndian b) where
  get_bytes-short : (n : ℕ) (src : List ℕ) → length src < n → (get_bytes b n src).0 ≡ panic
  unfolding get_bytes
  get_bytes-short zero src h = elim h [ ]
  get_bytes-short (suc n) [] h = rw (laws.get_u8_lem, read-short 1 [] (omega arith))
  get_bytes-short (suc n) (x ∷ xs) h =
      rw (laws.get_u8_lem, read-cons x xs) (ground (arith, get_bytes-short n xs))

  -- With a buffer that keeps the crate's big-endian contract, for a type below 256 and a length
  -- of at least 10 and below 2^16: a header with fewer bytes behind it than it announces is taken
  -- from the buffer, and decoding returns an error instead of waiting.
  pub decode_partial :
      (now kind len : ℕ) (tail : List ℕ)
      → kind < 256
      → 10 ≤ len
      → len < 2 ^ 16
      → 10 + length tail < len
      → decode b now (head kind len ++ tail)
        ≡ (err (decoding_error "Did not receive enough bytes"), tail)
  unfolding decode decode_header decode_versioned check_length head be starts_with read read_acc
  decode_partial now kind len tail hk lo hi short =
      simp (laws.get_u32_lem, laws.get_u8_lem, laws.get_u16_lem, read_kind kind hk, read_len len hi)
        (ground (arith, sub_u16-add len 10 (len - 10) (omega arith) tail))
