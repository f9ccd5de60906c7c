-- ===== src/Wire/RoundTrip.antt =====
-- src/wire_frame.rs: decoding what was encoded.
use rust_pinecone.Prelude.{
  ℕ, ◌+◌, ◌*◌, ◌-◌, ◌/◌, ◌%◌, ◌^◌, ◌<◌, ◌≤◌, ◌≡◌, sym, ap, ◌∙◌, arith, List, [], ◌++◌, append_assoc,
  length, length-append, All, some, ok, and_then,
}
use rust_pinecone.Bytes.{BytesMut, IsBigEndian}
use rust_pinecone.Bytes.Words.{be, read, read_acc}
use rust_pinecone.Frames.{
  Frame, TreePacket, tree_routed, snek_routed, tree_announcement, snek_bootstrap,
  snek_bootstrap_ack, snek_setup, snek_setup_ack, snek_teardown,
}
use rust_pinecone.Wire.Encode.{frame_length, frame_type, encode}
use rust_pinecone.Wire.Decode.{
  decode_tree_announcement, decode_tree_routed, decode_snek_bootstrap, decode_snek_bootstrap_ack,
  decode_snek_setup, decode_snek_setup_ack, decode_snek_teardown, decode_snek_routed, decode_body,
  check_length, decode_versioned, decode_header, decode, starts_with,
}
use rust_pinecone.Wire.Layout.{coordinates_bytes, body, head, header, length-body, encode-layout}
use rust_pinecone.Wire.Reads.{
  IsU64, IsKey, CoordinatesFit, RootFits, SignatureFits, get_bytes-append, decode_key-be,
  get_u64-be, get_u16-be, get_coordinates-append, get_ports-append, get_root-append,
  get_signatures-append, sub_u16-add, get_ports-count, mul_u16-lt,
}

-- The sizes that the wire format can carry. The two coordinates of a tree packet are equally long,
-- since the decoder reads the second by the length of the first.
abbrev pub FrameFits : Frame → Type 0
FrameFits (tree_routed p) =
    CoordinatesFit p.destination_coordinates
    × CoordinatesFit p.source_coordinates
    × (length p.source_coordinates.coordinates ≡ length p.destination_coordinates.coordinates)
FrameFits (snek_routed p) = IsKey p.destination_key × IsKey p.source_key
FrameFits (tree_announcement p) =
    RootFits p.root × All SignatureFits p.signatures × (length p.signatures < 2 ^ 16)
FrameFits (snek_bootstrap p) =
    IsKey p.destination_key × CoordinatesFit p.source × RootFits p.root × IsU64 p.path_id
FrameFits (snek_bootstrap_ack p) =
    CoordinatesFit p.destination_coordinates
    × IsKey p.destination_key
    × CoordinatesFit p.source_coordinates
    × IsKey p.source_key
    × RootFits p.root
    × IsU64 p.path_id
FrameFits (snek_setup p) =
    CoordinatesFit p.destination
    × IsKey p.destination_key
    × IsKey p.source_key
    × RootFits p.root
    × IsU64 p.path_id
FrameFits (snek_setup_ack p) = IsKey p.destination_key × RootFits p.root × IsU64 p.path_id
FrameFits (snek_teardown p) = IsKey p.destination_key × RootFits p.root × IsU64 p.path_id

-- What a frame is received as: an announcement gets the receiver's time, and order 0.
unfoldable pub received : ℕ → Frame → Frame
received now (tree_announcement p) =
    tree_announcement (record p { receive_time = now; receive_order = 0 })
received now (tree_routed p) = tree_routed p
received now (snek_routed p) = snek_routed p
received now (snek_bootstrap p) = snek_bootstrap p
received now (snek_bootstrap_ack p) = snek_bootstrap_ack p
received now (snek_setup p) = snek_setup p
received now (snek_setup_ack p) = snek_setup_ack p
received now (snek_teardown p) = snek_teardown p

pub frame_type-lt : (f : Frame) → frame_type f < 256
unfolding frame_type
frame_type-lt (tree_routed p) = omega arith
frame_type-lt f = omega arith

pub frame_length-ge : (f : Frame) → 10 ≤ frame_length f
unfolding frame_length
frame_length-ge (tree_routed p) = omega arith
frame_length-ge f = omega arith

pub room : (f : Frame) (rest : List ℕ) → frame_length f ≤ 10 + length (body f ++ rest)
room f rest = omega (arith, length-append (body f) rest, length-body f)

pub read_kind : (kind : ℕ) → kind < 256 → 0 * 256 + kind % 256 ≡ kind
read_kind kind h = omega arith

pub read_len :
    (len : ℕ) → len < 2 ^ 16 → (0 * 256 + len % 2 ^ 16 / 256 % 256) * 256 + len % 2 ^ 16 % 256 ≡ len
read_len len h = omega arith

module _ {b : BytesMut} (laws : IsBigEndian b) (now : ℕ) where
  tree_routed-body :
      (p : TreePacket) (rest : List ℕ)
      → FrameFits (tree_routed p)
      → frame_length (tree_routed p) < 2 ^ 16
      → decode_tree_routed b (frame_length (tree_routed p)) (body (tree_routed p) ++ rest)
        ≡ (ok (tree_routed p), rest)
  unfolding decode_tree_routed body coordinates_bytes frame_length
  tree_routed-body p rest h fits =
      let d = length p.destination_coordinates.coordinates in
      let s = length p.source_coordinates.coordinates in
      let n = length p.payload in
      simp (
        append_assoc,
        get_u16-be laws _ h.0.count,
        get_ports-append laws _ h.0.ports,
        get_u16-be laws _ h.1.count,
        get_ports-count laws p.source_coordinates.coordinates d (sym h.2) h.1.ports,
        sub_u16-add (10 + 2 + d * 8 + 2 + s * 8 + n) 10 (4 + d * 8 + s * 8 + n) (omega arith),
        sub_u16-add (4 + d * 8 + s * 8 + n) 4 (d * 8 + s * 8 + n) (omega arith),
        mul_u16-lt d 8 (omega arith),
        sub_u16-add (d * 8 + s * 8 + n) (d * 8) (s * 8 + n) (omega arith),
        mul_u16-lt s 8 (omega arith),
        sub_u16-add (s * 8 + n) (s * 8) n (omega arith),
        get_bytes-append laws p.payload,
      )

  -- The match on the type reads a body back.
  pub decode_body-body :
      (f : Frame) (rest : List ℕ)
      → FrameFits f
      → frame_length f < 2 ^ 16
      → decode_body b now (frame_type f) (frame_length f) (body f ++ rest)
        ≡ (ok (received now f), rest)
  unfolding decode_body frame_type received
  decode_body-body (tree_routed p) rest h fits = tree_routed-body p rest h fits
  decode_body-body (snek_routed p) rest h fits =
      unfold decode_snek_routed body frame_length in
      let n = length p.payload in
      simp (
        append_assoc,
        decode_key-be laws _ h.0,
        decode_key-be laws _ h.1,
        sub_u16-add (10 + 32 + 32 + n) 10 (64 + n) (omega arith),
        sub_u16-add (64 + n) 64 n (omega arith),
        get_bytes-append laws p.payload,
      )
  decode_body-body (tree_announcement p) rest h fits =
      unfold decode_tree_announcement body in
      simp (
        append_assoc,
        get_root-append laws _ h.0,
        get_u16-be laws _ h.2,
        get_signatures-append laws _ h.1,
      )
  decode_body-body (snek_bootstrap p) rest h fits =
      unfold decode_snek_bootstrap body in
      simp (
        append_assoc,
        decode_key-be laws _ h.0,
        get_coordinates-append laws _ h.1,
        get_root-append laws _ h.2,
        get_u64-be laws _ h.3,
      )
  decode_body-body (snek_bootstrap_ack p) rest h fits =
      unfold decode_snek_bootstrap_ack body in
      simp (
        append_assoc,
        get_coordinates-append laws _ h.0,
        decode_key-be laws _ h.1,
        get_coordinates-append laws _ h.2,
        decode_key-be laws _ h.3,
        get_root-append laws _ h.4,
        get_u64-be laws _ h.5,
      )
  decode_body-body (snek_setup p) rest h fits =
      unfold decode_snek_setup body in
      simp (
        append_assoc,
        get_coordinates-append laws _ h.0,
        decode_key-be laws _ h.1,
        decode_key-be laws _ h.2,
        get_root-append laws _ h.3,
        get_u64-be laws _ h.4,
      )
  decode_body-body (snek_setup_ack p) rest h fits =
      unfold decode_snek_setup_ack body in
      simp
        (append_assoc, decode_key-be laws _ h.0, get_root-append laws _ h.1, get_u64-be laws _ h.2)
  decode_body-body (snek_teardown p) rest h fits =
      unfold decode_snek_teardown body in
      simp
        (append_assoc, decode_key-be laws _ h.0, get_root-append laws _ h.1, get_u64-be laws _ h.2)

  -- A header with room for `len` bytes is read off, and the match on the type goes on behind it.
  pub decode-head :
      (kind len : ℕ) (tail : List ℕ)
      → kind < 256
      → 10 ≤ len
      → len < 2 ^ 16
      → len ≤ 10 + length tail
      → decode b now (head kind len ++ tail)
        ≡ and_then (decode_body b now kind len tail) (λ f src. (ok (some f), src))
  unfolding decode decode_header decode_versioned check_length head be starts_with read read_acc
  decode-head kind len tail hk lo hi room =
      simp (laws.get_u32_lem, laws.get_u8_lem, laws.get_u16_lem, read_kind kind hk, read_len len hi)
        (ground (arith, sub_u16-add len 10 (len - 10) (omega arith) tail))

  -- Given a buffer that keeps the crate's big-endian contract, a frame of less than 2^16 bytes
  -- announced length whose numbers and lists fit their fields, and, for a tree packet, with two
  -- coordinates of one length: encoding it into an empty buffer and decoding that, with any bytes
  -- behind it, gives the frame (an announcement with the receiver's time and order 0) and leaves
  -- exactly the bytes behind it.
  pub decode-encode :
      (f : Frame) (rest : List ℕ)
      → FrameFits f
      → frame_length f < 2 ^ 16
      → and_then (encode b f []) (λ _ src. decode b now (src ++ rest))
        ≡ (ok (some (received now f)), rest)
  unfolding header
  decode-encode f rest h fits =
      rw ((encode-layout laws f 0 []).0, append_assoc)
        (decode-head (frame_type f) (frame_length f) (body f ++ rest) (frame_type-lt f)
            (frame_length-ge f) fits (room f rest)
          ∙ ap (λ r. and_then r (λ f src. (ok (some f), src))) (decode_body-body f rest h fits))
