-- ===== src/Wire/Decode.antt =====
-- src/wire_frame.rs, `Decoder`: reading a frame from the bytes received so far. Arithmetic on `u16`
-- panics on overflow, as it does in the debug build that the README runs.
use rust_pinecone.Prelude.{
  ℕ, zero, suc, ◌-◌, ◌*◌, ◌^◌, Bool, true, false, ◌&&◌, List, [], ◌∷◌, length, Option, none, some,
  ltb, ◌==◌, if◌then◌else◌, ok, err, panic, M, ◌>>=◌, ◌>>◌, pure, fail, decoding_error,
}
use rust_pinecone.Bytes.{BytesMut}
use rust_pinecone.Bytes.Words.{of_be}
use rust_pinecone.Tree.{PublicKey, Port, Signature, Root, RootAnnouncementSignature}
use rust_pinecone.Coordinates.{Coordinates}
use rust_pinecone.Frames.{
  Frame, tree_routed, snek_routed, tree_announcement, snek_bootstrap, snek_bootstrap_ack,
  snek_setup, snek_setup_ack, snek_teardown,
}
use rust_pinecone.Wire.Encode.{frame_magic_bytes}

unfoldable pub sub_u16 : ℕ → ℕ → M (List ℕ) ℕ
sub_u16 x y src = if ltb x y then (panic, src) else (ok (x - y), src)

unfoldable pub mul_u16 : ℕ → ℕ → M (List ℕ) ℕ
mul_u16 x y src = if ltb (x * y) (2 ^ 16) then (ok (x * y), src) else (panic, src)

unfoldable pub starts_with : List ℕ → List ℕ → Bool
starts_with src [] = true
starts_with [] (x ∷ xs) = false
starts_with (y ∷ src) (x ∷ xs) = (y == x) && starts_with src xs

module _ (b : BytesMut) where
  unfoldable pub get_bytes : ℕ → M (List ℕ) (List ℕ)
  get_bytes zero = pure []
  get_bytes (suc n) = do x ← b.get_u8; xs ← get_bytes n; pure (x ∷ xs)

  unfoldable pub decode_key : M (List ℕ) PublicKey
  decode_key = do bytes ← get_bytes 32; pure (of_be 0 bytes)

  unfoldable pub decode_signature : M (List ℕ) Signature
  decode_signature = do bytes ← get_bytes 64; pure (of_be 0 bytes)

  unfoldable pub get_ports : ℕ → M (List ℕ) (List Port)
  get_ports zero = pure []
  get_ports (suc n) = do p ← b.get_u64; ps ← get_ports n; pure (p ∷ ps)

  unfoldable pub get_coordinates : M (List ℕ) Coordinates
  get_coordinates = do len ← b.get_u16; ports ← get_ports len; pure (record { coordinates = ports })

  unfoldable pub get_root : M (List ℕ) Root
  get_root = do
    root_key ← decode_key
    root_sequence ← b.get_u64
    pure (record { public_key = root_key; sequence_number = root_sequence })

  unfoldable pub get_signatures : ℕ → M (List ℕ) (List RootAnnouncementSignature)
  get_signatures zero = pure []
  get_signatures (suc n) = do
    sig_key ← decode_key
    sig_port ← b.get_u64
    sig ← decode_signature
    sigs ← get_signatures n
    pure (
        record { signing_public_key = sig_key; destination_port = sig_port; signature = sig }
        ∷ sigs)

  unfoldable pub decode_tree_announcement : ℕ → M (List ℕ) Frame
  decode_tree_announcement now = do
    r ← get_root
    sig_len ← b.get_u16
    sigs ← get_signatures sig_len
    pure (
        tree_announcement
          (record { root = r; signatures = sigs; receive_time = now; receive_order = 0 }))

  -- The second loop runs over `dest_len`, as the source has it.
  unfoldable pub decode_tree_routed : ℕ → M (List ℕ) Frame
  decode_tree_routed len = do
    dest_len ← b.get_u16
    dest ← get_ports dest_len
    source_len ← b.get_u16
    source ← get_ports dest_len
    l ← sub_u16 len 10
    l ← sub_u16 l 4
    dest_bytes ← mul_u16 dest_len 8
    l ← sub_u16 l dest_bytes
    source_bytes ← mul_u16 source_len 8
    payload_len ← sub_u16 l source_bytes
    bytes ← get_bytes payload_len
    pure (
        tree_routed (record {
          source_coordinates = record { coordinates = source };
          destination_coordinates = record { coordinates = dest };
          payload = bytes;
        }))

  unfoldable pub decode_snek_bootstrap : M (List ℕ) Frame
  decode_snek_bootstrap = do
    dest_key ← decode_key
    from ← get_coordinates
    r ← get_root
    id ← b.get_u64
    pure (
        snek_bootstrap
          (record { root = r; destination_key = dest_key; source = from; path_id = id }))

  unfoldable pub decode_snek_bootstrap_ack : M (List ℕ) Frame
  decode_snek_bootstrap_ack = do
    dest ← get_coordinates
    dest_key ← decode_key
    from ← get_coordinates
    from_key ← decode_key
    r ← get_root
    id ← b.get_u64
    pure (
        snek_bootstrap_ack (record {
          destination_coordinates = dest;
          destination_key = dest_key;
          source_coordinates = from;
          source_key = from_key;
          root = r;
          path_id = id;
        }))

  unfoldable pub decode_snek_setup : M (List ℕ) Frame
  decode_snek_setup = do
    dest ← get_coordinates
    dest_key ← decode_key
    from_key ← decode_key
    r ← get_root
    id ← b.get_u64
    pure (
        snek_setup (record {
          root = r;
          destination = dest;
          destination_key = dest_key;
          source_key = from_key;
          path_id = id;
        }))

  unfoldable pub decode_snek_setup_ack : M (List ℕ) Frame
  decode_snek_setup_ack = do
    dest_key ← decode_key
    r ← get_root
    id ← b.get_u64
    pure (snek_setup_ack (record { root = r; destination_key = dest_key; path_id = id }))

  unfoldable pub decode_snek_teardown : M (List ℕ) Frame
  decode_snek_teardown = do
    dest_key ← decode_key
    r ← get_root
    id ← b.get_u64
    pure (snek_teardown (record { root = r; destination_key = dest_key; path_id = id }))

  unfoldable pub decode_snek_routed : ℕ → M (List ℕ) Frame
  decode_snek_routed len = do
    dest_key ← decode_key
    from_key ← decode_key
    l ← sub_u16 len 10
    payload_len ← sub_u16 l 64
    bytes ← get_bytes payload_len
    pure (
        snek_routed (record { destination_key = dest_key; source_key = from_key; payload = bytes }))

  -- The match on the frame type.
  unfoldable pub decode_body : ℕ → ℕ → ℕ → M (List ℕ) Frame
  decode_body now kind len =
      if kind == 1
      then decode_tree_announcement now
      else if kind == 2
      then decode_tree_routed len
      else if kind == 3
      then decode_snek_bootstrap
      else if kind == 4
      then decode_snek_bootstrap_ack
      else if kind == 5
      then decode_snek_setup
      else if kind == 6
      then decode_snek_setup_ack
      else if kind == 7
      then decode_snek_teardown
      else if kind == 8
      then decode_snek_routed len
      else fail (decoding_error "Not a supported frame type")

  -- `src.len() < (len - 10) as usize` is tested on what is left behind the header.
  unfoldable pub check_length : ℕ → M (List ℕ) (Unit {0})
  check_length body_len src =
      if ltb (length src) body_len
      then (err (decoding_error "Did not receive enough bytes"), src)
      else (ok tt, src)

  unfoldable pub decode_versioned : ℕ → M (List ℕ) (Option Frame)
  decode_versioned now = do
    kind ← b.get_u8
    _extra1 ← b.get_u8
    _extra2 ← b.get_u8
    len ← b.get_u16
    body_len ← sub_u16 len 10
    check_length body_len
    frame ← decode_body now kind len
    pure (some frame)

  unfoldable pub decode_header : ℕ → M (List ℕ) (Option Frame)
  decode_header now = do
    _magic ← b.get_u32
    version ← b.get_u8
    (if version == 0 then decode_versioned now else fail (decoding_error "Not frame version 0"))

  unfoldable pub decode : ℕ → M (List ℕ) (Option Frame)
  decode now src =
      if length src == 0
      then (ok none, src)
      else if ltb (length src) 4
      then (ok none, src)
      else if starts_with src frame_magic_bytes
      then if ltb (length src) 10 then (ok none, src) else decode_header now src
      else (err (decoding_error "Magic Bytes not found"), src)
