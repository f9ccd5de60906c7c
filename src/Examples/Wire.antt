-- ===== src/Examples/Wire.antt =====
-- The theorems on the codec, on concrete frames and bytes.
use rust_pinecone.Prelude.{
  ap, false, ◌⊎◌, ◌≤◌, map, ℕ, ◌<◌, ◌+◌, ◌%◌, ◌^◌, ◌≡◌, ◌≢◌, refl, arith, List, [], ◌∷◌, ◌++◌,
  length, none, some, ok, err, panic, and_then, decoding_error, encoding_error, ◌&&◌, not, leb,
  if◌then◌else◌,
}
use rust_pinecone.Bytes.{big_endian, big_endian-IsBigEndian}
use rust_pinecone.Bytes.Words.{be, length-be}
use rust_pinecone.Frames.{Frame, TreePacket, tree_routed, tree_announcement}
use rust_pinecone.Channel.{ready, fifo}
use rust_pinecone.Connection.{Reader, tcp, next, framing, framing-IsFraming}
use rust_pinecone.Connection.Stream.{
  send_all, next_all, frames_of, reads_of, joined, reader, next_all-send_all,
}
use rust_pinecone.Connection.Cut.{next_cut}
use rust_pinecone.Wire.Encode.{
  frame_magic_bytes, frame_length, frame_type, announced_length, encode,
}
use rust_pinecone.Wire.Decode.{decode, starts_with}
use rust_pinecone.Wire.Layout.{
  coordinates_bytes, ports_bytes, header, body, head, root_bytes, uncounted, encode-layout,
  length-encode,
}
use rust_pinecone.Wire.Reads.{RootFits}
use rust_pinecone.Wire.RoundTrip.{FrameFits, received, decode-encode}
use rust_pinecone.Wire.Refusals.{decode_incomplete, decode_partial}
use rust_pinecone.Wire.Faults.{decode_cut_announcement, decode-encode_unequal}
use rust_pinecone.Examples.{root, announcement}

abbrev packet : TreePacket
packet = record {
  source_coordinates = record { coordinates = 3 ∷ 4 ∷ [] };
  destination_coordinates = record { coordinates = 1 ∷ 2 ∷ [] };
  payload = 7 ∷ [];
}

packet-FrameFits : FrameFits (tree_routed packet)
packet-FrameFits = (
  record { ports = (omega arith, (omega arith, tt)); count = omega arith },
  record { ports = (omega arith, (omega arith, tt)); count = omega arith },
  refl,
)

packet_length : frame_length (tree_routed packet) < 2 ^ 16
unfolding frame_length
packet_length = omega arith

decode-encode_example :
    and_then
      (encode big_endian (tree_routed packet) [])
      (λ _ src. decode big_endian 100 (src ++ 8 ∷ []))
    ≡ (ok (some (received 100 (tree_routed packet))), 8 ∷ [])
decode-encode_example =
    decode-encode big_endian-IsBigEndian 100 (tree_routed packet) (8 ∷ []) packet-FrameFits
      packet_length

length-encode_example :
    ((frame_length (tree_announcement announcement) < 2 ^ 16)
      × (length (encode big_endian (tree_announcement announcement) []).1
          ≡ announced_length (tree_announcement announcement)
            + uncounted (tree_announcement announcement)))
    ⊎ ((2 ^ 16 ≤ frame_length (tree_announcement announcement))
        × (announced_length (tree_announcement announcement)
              + uncounted (tree_announcement announcement)
              + 2 ^ 16
            ≤ length (encode big_endian (tree_announcement announcement) []).1))
length-encode_example = length-encode big_endian-IsBigEndian (tree_announcement announcement)

encode-layout_example :
    (encode big_endian (tree_routed packet) []
      ≡ (ok tt, header (tree_routed packet) ++ body (tree_routed packet)))
    × (encode big_endian (tree_routed packet) (1 ∷ [])
        ≡ (err (encoding_error "Buffer to write to is not empty"), 1 ∷ []))
encode-layout_example = encode-layout big_endian-IsBigEndian (tree_routed packet) 1 []

abbrev four : List ℕ
four = 1 ∷ 2 ∷ 3 ∷ 4 ∷ []

decode_incomplete_example : decode big_endian 100 four ≡ (
  if leb 4 (length four) && not (starts_with four frame_magic_bytes)
      then err (decoding_error "Magic Bytes not found")
      else ok none,
  four,
)
decode_incomplete_example = decode_incomplete big_endian 100 four (omega arith)

decode_partial_example :
    decode big_endian 100 (head 7 90 ++ 1 ∷ 2 ∷ [])
    ≡ (err (decoding_error "Did not receive enough bytes"), 1 ∷ 2 ∷ [])
decode_partial_example =
    decode_partial big_endian-IsBigEndian 100 7 90 (1 ∷ 2 ∷ []) (omega arith) (omega arith)
      (omega arith) (omega arith)

root-RootFits : RootFits root
root-RootFits = record { key = omega arith; sequence = omega arith }

announcement_length : frame_length (tree_announcement announcement) < 2 ^ 16
unfolding frame_length
announcement_length = omega arith

decode_cut_announcement_example :
    (decode big_endian 100 (
      head 1 (frame_length (tree_announcement announcement))
      ++ (root_bytes root ++ (be 2 (1 % 2 ^ 16) ++ be 50 0)))).0
    ≡ panic
decode_cut_announcement_example =
    decode_cut_announcement big_endian-IsBigEndian 100 announcement (be 50 0) root-RootFits
      announcement_length (omega (arith, length-be 50 0)) (omega (arith, length-be 50 0))

abbrev lopsided : TreePacket
lopsided = record {
  source_coordinates = record { coordinates = 3 ∷ [] };
  destination_coordinates = record { coordinates = 1 ∷ 2 ∷ [] };
  payload = 7 ∷ [];
}

lopsided_length : frame_length (tree_routed lopsided) < 2 ^ 16
unfolding frame_length
lopsided_length = omega arith

decode-encode_unequal_example :
    and_then
      (encode big_endian (tree_routed lopsided) [])
      (λ _ src. decode big_endian 100 (src ++ []))
    ≢ (ok (some (tree_routed lopsided)), [])
decode-encode_unequal_example =
    decode-encode_unequal big_endian-IsBigEndian 100 lopsided [] lopsided_length
      (λ e. absurd (omega arith))

-- Two reads, the first of two frames.
abbrev two_reads : List (Frame × List Frame)
two_reads = (tree_routed packet, tree_routed packet ∷ []) ∷ (tree_routed packet, []) ∷ []

next_all-send_all_example :
    (wire : List ℕ) × (send_all big_endian framing fifo (frames_of two_reads) (tcp []) ≡ tcp wire)
    × (joined (reads_of big_endian two_reads) ≡ wire)
    × (left : Reader) × (next_all big_endian framing fifo 100
          (length (frames_of two_reads))
          (tcp (reader false [] (reads_of big_endian two_reads)))
        ≡ (map (λ f. ready (some (ok (received 100 f)))) (frames_of two_reads), tcp left))
    × (left.buffer ≡ [])
    × (left.chunks ≡ [])
next_all-send_all_example =
    next_all-send_all big_endian-IsBigEndian framing-IsFraming fifo 100 two_reads (
      ((packet-FrameFits, packet_length), ((packet-FrameFits, packet_length), tt)),
      (((packet-FrameFits, packet_length), tt), tt),
    )

-- A read that ends behind the destination of the packet.
abbrev cut_first : List ℕ
cut_first = header (tree_routed packet) ++ coordinates_bytes packet.destination_coordinates

abbrev cut_later : List ℕ
cut_later = coordinates_bytes packet.source_coordinates ++ packet.payload

cut_same : (encode big_endian (tree_routed packet) []).1 ≡ cut_first ++ cut_later
unfolding header head body be coordinates_bytes
cut_same = ap (λ x. x.1) (encode-layout big_endian-IsBigEndian (tree_routed packet) 0 []).0

cut_short : length cut_first < frame_length (tree_routed packet)
unfolding header head coordinates_bytes ports_bytes be announced_length frame_length frame_type
cut_short = omega arith

cut_long : 10 ≤ length cut_first
unfolding header head coordinates_bytes ports_bytes be announced_length frame_length frame_type
cut_long = omega arith

next_cut_example :
    (next big_endian framing fifo 100 (tcp (reader false [] (cut_first ∷ cut_later ∷ [])))).0
    ≡ ready (some (err (decoding_error "Did not receive enough bytes")))
next_cut_example =
    next_cut big_endian-IsBigEndian framing-IsFraming fifo 100 (tree_routed packet) cut_first
      cut_later (cut_later ∷ []) packet_length cut_same cut_long cut_short
