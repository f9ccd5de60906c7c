-- ===== src/Connection/Cut.antt =====
-- src/connection.rs over a stream whose reads cut a frame: what `next` yields then.
use rust_pinecone.Prelude.{
  ℕ, ◌+◌, ◌<◌, ◌≤◌, ◌^◌, ◌≡◌, ◌≢◌, refl, ap, sym, ◌∙◌, arith, false, List, [], ◌∷◌, ◌++◌, length,
  length-append, some, err, decoding_error,
}
use rust_pinecone.Bytes.{BytesMut, IsBigEndian}
use rust_pinecone.Bytes.Words.{length-be}
use rust_pinecone.Frames.{Frame}
use rust_pinecone.Channel.{ready, Mpsc}
use rust_pinecone.Wire.Encode.{encode, frame_length, frame_type}
use rust_pinecone.Wire.Decode.{decode}
use rust_pinecone.Wire.Layout.{head, header, body, encode-layout}
use rust_pinecone.Wire.Refusals.{decode_partial}
use rust_pinecone.Wire.RoundTrip.{frame_type-lt, frame_length-ge}
use rust_pinecone.Connection.{Framing, IsFraming, tcp, next}
use rust_pinecone.Connection.Stream.{reader}

prefix_split :
    (xs ys first later : List ℕ)
    → xs ++ ys ≡ first ++ later
    → length xs ≤ length first
    → (rest : List ℕ) × (first ≡ xs ++ rest)
prefix_split [] ys first later e h = (first, refl)
prefix_split (x ∷ xs) ys [] later e h = absurd (omega arith)
prefix_split (x ∷ xs) ys (a ∷ first) later e h =
    let (rest, same) = prefix_split xs ys first later (cc e) (omega arith) in (rest, cc (e, same))

length-header : (f : Frame) → length (header f) ≡ 10
unfolding header head
length-header f = simp (length-append, length-be)

long_nonempty : (xs : List ℕ) → 10 ≤ length xs → xs ≢ []
long_nonempty [] h e = omega arith
long_nonempty (x ∷ xs) h e = cc e

module _ {b : BytesMut} (laws : IsBigEndian b) {t : Framing} (framed : IsFraming t) (m : Mpsc Frame)
    (now : ℕ) where
  -- With buffers and framed streams that keep their crates' contracts: where the first read of a
  -- new connection's socket brings the first bytes of a frame of less than 2^16 bytes announced
  -- length, at least 10 and less than announced, `next` yields an error, whatever further reads
  -- bring, also where they bring the rest of the frame.
  pub next_cut :
      (f : Frame) (first later : List ℕ) (chunks : List (List ℕ))
      → frame_length f < 2 ^ 16
      → (encode b f []).1 ≡ first ++ later
      → 10 ≤ length first
      → length first < frame_length f
      → (next b t m now (tcp (reader false [] (first ∷ chunks)))).0
        ≡ ready (some (err (decoding_error "Did not receive enough bytes")))
  unfolding next header
  next_cut f first later chunks small cut lo hi =
      let written = sym (ap (λ x. x.1) (encode-layout laws f 0 []).0) ∙ cut in
      let (part, e) =
        prefix_split (header f) (body f) first later written (omega (arith, lo, length-header f)) in
      let short : 10 + length part < frame_length f =
        omega (arith, hi, length-header f, length-append (header f) part, ap length e) in
      let read = framed.next_read (decode b now) [] first chunks (long_nonempty first lo) in
      let partial =
        decode_partial laws now (frame_type f) (frame_length f) part (frame_type-lt f)
          (frame_length-ge f) small short in
      ap (λ x. x.0) read
      ∙ framed.next_error (decode b now) first part _ chunks (ap (λ x. decode b now x) e ∙ partial)
