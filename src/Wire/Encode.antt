-- ===== src/Wire/Encode.antt =====
-- src/wire_frame.rs, `Encoder<Frame>`: what a frame is written as.
use rust_pinecone.Prelude.{ℕ, ◌+◌, ◌*◌, ◌%◌, ◌^◌, List, [], ◌∷◌, length, ok, err, M, encoding_error}
use rust_pinecone.Bytes.{BytesMut}
use rust_pinecone.Bytes.Words.{be}
use rust_pinecone.Tree.{Port, Root, RootAnnouncementSignature}
use rust_pinecone.Coordinates.{Coordinates}
use rust_pinecone.Frames.{
  Frame, tree_routed, snek_routed, tree_announcement, snek_bootstrap, snek_bootstrap_ack,
  snek_setup, snek_setup_ack, snek_teardown,
}

-- "pine"
abbrev pub frame_magic_bytes : List ℕ
frame_magic_bytes = 0x70 ∷ 0x69 ∷ 0x6e ∷ 0x65 ∷ []

-- The length of a frame as it is summed up, before the cast `as u16`.
unfoldable pub frame_length : Frame → ℕ
frame_length (tree_routed p) =
    10
    + 2
    + length p.destination_coordinates.coordinates * 8
    + 2
    + length p.source_coordinates.coordinates * 8
    + length p.payload
frame_length (snek_routed p) = 10 + 32 + 32 + length p.payload
frame_length (tree_announcement p) = 10 + 32 + 8 + 2 + length p.signatures * (32 + 8)
frame_length (snek_bootstrap p) = 10 + 32 + 2 + length p.source.coordinates * 8 + 32 + 8 + 8
frame_length (snek_bootstrap_ack p) =
    10
    + 2
    + length p.destination_coordinates.coordinates * 8
    + 32
    + 2
    + length p.source_coordinates.coordinates * 8
    + 32
    + 32
    + 8
    + 8
frame_length (snek_setup p) = 10 + 2 + length p.destination.coordinates * 8 + 32 + 32 + 32 + 8 + 8
frame_length (snek_setup_ack p) = 10 + 32 + 32 + 8 + 8
frame_length (snek_teardown p) = 10 + 32 + 32 + 8 + 8

-- The length that the header announces, after the cast.
unfoldable pub announced_length : Frame → ℕ
announced_length f = frame_length f % 2 ^ 16

unfoldable pub frame_type : Frame → ℕ
frame_type (tree_routed p) = 2
frame_type (snek_routed p) = 8
frame_type (tree_announcement p) = 1
frame_type (snek_bootstrap p) = 3
frame_type (snek_bootstrap_ack p) = 4
frame_type (snek_setup p) = 5
frame_type (snek_setup_ack p) = 6
frame_type (snek_teardown p) = 7

module _ (b : BytesMut) where
  unfoldable pub put_key : ℕ → List ℕ → List ℕ
  put_key key dst = b.put_slice (be 32 key) dst

  unfoldable pub put_ports : List Port → List ℕ → List ℕ
  put_ports [] dst = dst
  put_ports (p ∷ ps) dst = put_ports ps (b.put_u64 p dst)

  -- The number of ports is cast `as u16`.
  unfoldable pub put_coordinates : Coordinates → List ℕ → List ℕ
  put_coordinates c dst = put_ports c.coordinates (b.put_u16 (length c.coordinates % 2 ^ 16) dst)

  unfoldable pub put_root : Root → List ℕ → List ℕ
  put_root r dst = b.put_u64 r.sequence_number (put_key r.public_key dst)

  unfoldable pub put_signatures : List RootAnnouncementSignature → List ℕ → List ℕ
  put_signatures [] dst = dst
  put_signatures (s ∷ rest) dst = put_signatures rest (
      b.put_slice (be 64 s.signature)
        (b.put_u64 s.destination_port (put_key s.signing_public_key dst)))

  unfoldable pub put_body : Frame → List ℕ → List ℕ
  put_body (tree_routed p) dst =
      b.put_slice p.payload
        (put_coordinates p.source_coordinates (put_coordinates p.destination_coordinates dst))
  put_body (snek_routed p) dst =
      b.put_slice p.payload (put_key p.source_key (put_key p.destination_key dst))
  put_body (tree_announcement p) dst =
      put_signatures p.signatures (b.put_u16 (length p.signatures % 2 ^ 16) (put_root p.root dst))
  put_body (snek_bootstrap p) dst =
      b.put_u64 p.path_id
        (put_root p.root (put_coordinates p.source (put_key p.destination_key dst)))
  put_body (snek_bootstrap_ack p) dst = b.put_u64 p.path_id (
      put_root p.root (
        put_key p.source_key (
          put_coordinates p.source_coordinates
            (put_key p.destination_key (put_coordinates p.destination_coordinates dst)))))
  put_body (snek_setup p) dst = b.put_u64 p.path_id (
      put_root p.root
        (put_key p.source_key (put_key p.destination_key (put_coordinates p.destination dst))))
  put_body (snek_setup_ack p) dst =
      b.put_u64 p.path_id (put_root p.root (put_key p.destination_key dst))
  put_body (snek_teardown p) dst =
      b.put_u64 p.path_id (put_root p.root (put_key p.destination_key dst))

  -- Magic bytes, version 0, type, two bytes extra and the length.
  unfoldable pub put_header : Frame → List ℕ → List ℕ
  put_header item dst =
      b.put_u16 (announced_length item)
        (b.put_u16 0 (b.put_u8 (frame_type item) (b.put_u8 0 (b.put_slice frame_magic_bytes dst))))

  unfoldable pub encode : Frame → M (List ℕ) (Unit {0})
  encode item [] = (ok tt, put_body item (put_header item []))
  encode item (x ∷ dst) = (err (encoding_error "Buffer to write to is not empty"), x ∷ dst)
