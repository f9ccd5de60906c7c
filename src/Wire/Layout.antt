-- ===== src/Wire/Layout.antt =====
-- `encode` of src/wire_frame.rs: the bytes of each frame, written out.
use rust_pinecone.Prelude.{
  ℕ, ◌<◌, ◌≤◌, ◌⊎◌, inl, inr, ap, ◌∙◌, Bool-cases, leb, leb→le, leb→lt, ◌+◌, ◌*◌, ◌%◌, ◌^◌, ◌≡◌,
  refl, arith, List, [], ◌∷◌, ◌++◌, append-nil, append_assoc, length, length-append, ok, err,
  encoding_error,
}
use rust_pinecone.Bytes.{BytesMut, IsBigEndian}
use rust_pinecone.Bytes.Words.{be, length-be}
use rust_pinecone.Tree.{Port, Root, RootAnnouncementSignature}
use rust_pinecone.Coordinates.{Coordinates}
use rust_pinecone.Frames.{
  Frame, tree_routed, snek_routed, tree_announcement, snek_bootstrap, snek_bootstrap_ack,
  snek_setup, snek_setup_ack, snek_teardown,
}
use rust_pinecone.Wire.Encode.{
  frame_magic_bytes, frame_length, announced_length, frame_type, put_key, put_ports,
  put_coordinates, put_root, put_signatures, put_body, put_header, encode,
}

unfoldable pub ports_bytes : List Port → List ℕ
ports_bytes [] = []
ports_bytes (p ∷ ps) = be 8 p ++ ports_bytes ps

unfoldable pub coordinates_bytes : Coordinates → List ℕ
coordinates_bytes c = be 2 (length c.coordinates % 2 ^ 16) ++ ports_bytes c.coordinates

unfoldable pub root_bytes : Root → List ℕ
root_bytes r = be 32 r.public_key ++ be 8 r.sequence_number

unfoldable pub signatures_bytes : List RootAnnouncementSignature → List ℕ
signatures_bytes [] = []
signatures_bytes (s ∷ rest) =
    be 32 s.signing_public_key
    ++ (be 8 s.destination_port ++ (be 64 s.signature ++ signatures_bytes rest))

-- What follows the header.
unfoldable pub body : Frame → List ℕ
body (tree_routed p) =
    coordinates_bytes p.destination_coordinates
    ++ (coordinates_bytes p.source_coordinates ++ p.payload)
body (snek_routed p) = be 32 p.destination_key ++ (be 32 p.source_key ++ p.payload)
body (tree_announcement p) =
    root_bytes p.root ++ (be 2 (length p.signatures % 2 ^ 16) ++ signatures_bytes p.signatures)
body (snek_bootstrap p) =
    be 32 p.destination_key ++ (coordinates_bytes p.source ++ (root_bytes p.root ++ be 8 p.path_id))
body (snek_bootstrap_ack p) =
    coordinates_bytes p.destination_coordinates
    ++ (be 32 p.destination_key
        ++ (coordinates_bytes p.source_coordinates
            ++ (be 32 p.source_key ++ (root_bytes p.root ++ be 8 p.path_id))))
body (snek_setup p) =
    coordinates_bytes p.destination
    ++ (be 32 p.destination_key ++ (be 32 p.source_key ++ (root_bytes p.root ++ be 8 p.path_id)))
body (snek_setup_ack p) = be 32 p.destination_key ++ (root_bytes p.root ++ be 8 p.path_id)
body (snek_teardown p) = be 32 p.destination_key ++ (root_bytes p.root ++ be 8 p.path_id)

unfoldable pub head : ℕ → ℕ → List ℕ
head kind len = frame_magic_bytes ++ (be 1 0 ++ (be 1 kind ++ (be 2 0 ++ be 2 (len % 2 ^ 16))))

unfoldable pub header : Frame → List ℕ
unfolding head
header f = head (frame_type f) (frame_length f)

-- The bytes that the announced length leaves out: the signatures themselves.
unfoldable pub uncounted : Frame → ℕ
uncounted (tree_announcement p) = length p.signatures * 64
uncounted f = 0

length-ports_bytes : (ps : List Port) → length (ports_bytes ps) ≡ length ps * 8
unfolding ports_bytes
length-ports_bytes [] = refl
length-ports_bytes (p ∷ ps) =
    omega (arith, length-append (be 8 p) (ports_bytes ps), length-be 8 p, length-ports_bytes ps)

length-coordinates_bytes :
    (c : Coordinates) → length (coordinates_bytes c) ≡ 2 + length c.coordinates * 8
unfolding coordinates_bytes
length-coordinates_bytes c = rw length-append (rw (length-be, length-ports_bytes) (omega arith))

pub length-root_bytes : (r : Root) → length (root_bytes r) ≡ 40
unfolding root_bytes
length-root_bytes r = simp (length-append, length-be)

length-signatures_bytes :
    (sigs : List RootAnnouncementSignature) → length (signatures_bytes sigs) ≡ length sigs * 104
unfolding signatures_bytes
length-signatures_bytes [] = refl
length-signatures_bytes (s ∷ rest) =
    simp (length-append, length-be, length-signatures_bytes rest) (omega arith)

pub length-body : (f : Frame) → 10 + length (body f) ≡ frame_length f + uncounted f
unfolding body frame_length uncounted
length-body (tree_routed p) = simp (length-append, length-coordinates_bytes) (omega arith)
length-body (snek_routed p) = simp (length-append, length-be) (omega arith)
length-body (tree_announcement p) =
    simp (length-append, length-root_bytes, length-be, length-signatures_bytes) (omega arith)
length-body (snek_bootstrap p) =
    simp (length-append, length-coordinates_bytes, length-root_bytes, length-be) (omega arith)
length-body (snek_bootstrap_ack p) =
    simp (length-append, length-coordinates_bytes, length-root_bytes, length-be) (omega arith)
length-body (snek_setup p) =
    simp (length-append, length-coordinates_bytes, length-root_bytes, length-be) (omega arith)
length-body (snek_setup_ack p) = simp (length-append, length-root_bytes, length-be) (omega arith)
length-body (snek_teardown p) = simp (length-append, length-root_bytes, length-be) (omega arith)

length-layout : (f : Frame) → length (header f ++ body f) ≡ frame_length f + uncounted f
unfolding header
length-layout f = simp (length-append, length-be) (omega (arith, length-body f))

module _ {b : BytesMut} (laws : IsBigEndian b) where
  put_key-append : (key : ℕ) (dst : List ℕ) → put_key b key dst ≡ dst ++ be 32 key
  unfolding put_key
  put_key-append key dst = laws.put_slice_lem (be 32 key) dst

  put_ports-append : (ps : List Port) (dst : List ℕ) → put_ports b ps dst ≡ dst ++ ports_bytes ps
  unfolding put_ports ports_bytes
  put_ports-append [] dst = rw append-nil
  put_ports-append (p ∷ ps) dst = simp (put_ports-append ps, laws.put_u64_lem, append_assoc)

  put_coordinates-append :
      (c : Coordinates) (dst : List ℕ) → put_coordinates b c dst ≡ dst ++ coordinates_bytes c
  unfolding put_coordinates coordinates_bytes
  put_coordinates-append c dst = simp (put_ports-append, laws.put_u16_lem, append_assoc)

  put_root-append : (r : Root) (dst : List ℕ) → put_root b r dst ≡ dst ++ root_bytes r
  unfolding put_root root_bytes
  put_root-append r dst = simp (put_key-append, laws.put_u64_lem, append_assoc)

  put_signatures-append :
      (sigs : List RootAnnouncementSignature) (dst : List ℕ)
      → put_signatures b sigs dst ≡ dst ++ signatures_bytes sigs
  unfolding put_signatures signatures_bytes
  put_signatures-append [] dst = rw append-nil
  put_signatures-append (s ∷ rest) dst = simp (
    put_signatures-append rest,
    put_key-append,
    laws.put_u64_lem,
    laws.put_slice_lem,
    append_assoc,
  )

  put_body-append : (f : Frame) (dst : List ℕ) → put_body b f dst ≡ dst ++ body f
  unfolding put_body body
  put_body-append (tree_routed p) dst =
      simp (put_coordinates-append, laws.put_slice_lem, append_assoc)
  put_body-append (snek_routed p) dst = simp (put_key-append, laws.put_slice_lem, append_assoc)
  put_body-append (tree_announcement p) dst =
      simp (put_signatures-append, put_root-append, laws.put_u16_lem, append_assoc)
  put_body-append (snek_setup_ack p) dst =
      simp (put_root-append, put_key-append, laws.put_u64_lem, append_assoc)
  put_body-append (snek_teardown p) dst =
      simp (put_root-append, put_key-append, laws.put_u64_lem, append_assoc)
  put_body-append f dst =
      simp (put_coordinates-append, put_root-append, put_key-append, laws.put_u64_lem, append_assoc)

  put_header-append : (f : Frame) (dst : List ℕ) → put_header b f dst ≡ dst ++ header f
  unfolding put_header header announced_length
  put_header-append f dst =
      simp (laws.put_u8_lem, laws.put_u16_lem, laws.put_slice_lem, append_assoc)

  -- With a buffer that keeps the crate's big-endian contract, encoding into an empty buffer gives
  -- the header and the body of the frame, written out byte for byte; a buffer that holds
  -- something is refused with an error and left as it is.
  pub encode-layout :
      (f : Frame) (x : ℕ) (dst : List ℕ)
      → (encode b f [] ≡ (ok tt, header f ++ body f))
        × (encode b f (x ∷ dst) ≡ (err (encoding_error "Buffer to write to is not empty"), x ∷ dst))
  unfolding encode
  encode-layout f x dst = (simp (put_body-append, put_header-append), refl)

  -- With a buffer that keeps the crate's big-endian contract: where the summed length of a frame
  -- is below 2^16, the length that its header announces is the number of bytes that `encode`
  -- writes, except that an announcement has 64 more bytes for each signature; from 2^16 on the
  -- cast to `u16` wraps, and `encode` writes at least 2^16 bytes more than that.
  pub length-encode :
      (f : Frame)
      → ((frame_length f < 2 ^ 16) × (length (encode b f []).1 ≡ announced_length f + uncounted f))
        ⊎ ((2 ^ 16 ≤ frame_length f)
            × (announced_length f + uncounted f + 2 ^ 16 ≤ length (encode b f []).1))
  unfolding announced_length
  length-encode f =
      let bytes : length (encode b f []).1 ≡ frame_length f + uncounted f =
        ap (λ x. length x.1) (encode-layout f 0 []).0 ∙ length-layout f in
      elim (Bool-cases (leb (2 ^ 16) (frame_length f))) [
        | inl big ↦
            let long = leb→le (2 ^ 16) (frame_length f) big in
            inr (long, omega (arith, bytes, long))
        | inr small ↦
            let short = leb→lt (2 ^ 16) (frame_length f) small in
            inl (short, omega (arith, bytes, short))
      ]
