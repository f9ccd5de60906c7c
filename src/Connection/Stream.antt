-- ===== src/Connection/Stream.antt =====
-- The frames of src/connection.rs over a stream of bytes: what was sent is what is received.
use rust_pinecone.Prelude.{
  none, true, false, Bool, ◌≢◌, ℕ, zero, suc, ◌<◌, ◌^◌, ◌≡◌, refl, ap, sym, ◌∙◌, List, [], ◌∷◌,
  ◌++◌, append_assoc, append-nil, map, length, All, Option, some, Reply, ok,
}
use rust_pinecone.Bytes.{BytesMut, IsBigEndian}
use rust_pinecone.Frames.{Frame}
use rust_pinecone.Channel.{Poll, ready, Mpsc}
use rust_pinecone.Wire.Encode.{encode, frame_length}
use rust_pinecone.Wire.Decode.{decode}
use rust_pinecone.Wire.Layout.{head, header, encode-layout}
use rust_pinecone.Wire.RoundTrip.{FrameFits, received, decode-encode}
use rust_pinecone.Connection.{
  Framing, IsFraming, Reader, DownloadConnection, UploadConnection, tcp, next, send,
}

-- Frames that come in groups, of one or more each.
unfoldable pub frames_of : List (Frame × List Frame) → List Frame
frames_of [] = []
frames_of ((f, fs) ∷ groups) = f ∷ fs ++ frames_of groups

module _ (b : BytesMut) (t : Framing) (m : Mpsc Frame) where
  -- Frames sent one after the other, and so many received.
  unfoldable pub send_all : List Frame → UploadConnection → UploadConnection
  send_all [] c = c
  send_all (f ∷ fs) c = send_all fs (send b t m f c).1

  unfoldable pub next_all :
      ℕ → ℕ → DownloadConnection → List (Poll (Option (Reply Frame))) × DownloadConnection
  next_all now zero c = ([], c)
  next_all now (suc n) c =
      let (first, c') = next b t m now c in
      let (rest, c'') = next_all now n c' in (first ∷ rest, c'')

abbrev pub Fits : Frame → Type 0
Fits f = FrameFits f × (frame_length f < 2 ^ 16)

-- The bytes of frames, one after the other.
unfoldable pub bytes_of : BytesMut → List Frame → List ℕ
bytes_of b [] = []
bytes_of b (f ∷ fs) = (encode b f []).1 ++ bytes_of b fs

-- Each read of the socket brings the bytes of one group.
unfoldable pub reads_of : BytesMut → List (Frame × List Frame) → List (List ℕ)
reads_of b [] = []
reads_of b ((f, fs) ∷ groups) = bytes_of b (f ∷ fs) ∷ reads_of b groups

-- All that the reads bring.
unfoldable pub joined : List (List ℕ) → List ℕ
joined [] = []
joined (c ∷ cs) = c ++ joined cs

abbrev pub reader : Bool → List ℕ → List (List ℕ) → Reader
reader readable buffer chunks = record { buffer = buffer; readable = readable; chunks = chunks }

module _ {b : BytesMut} (laws : IsBigEndian b) {t : Framing} (framed : IsFraming t) (m : Mpsc Frame)
    (now : ℕ) where
  encode_empty : (f : Frame) → encode b f [] ≡ (ok tt, (encode b f []).1)
  unfolding encode
  encode_empty f = refl

  send_all-bytes :
      (fs : List Frame) (wire : List ℕ) → send_all b t m fs (tcp wire) ≡ tcp (wire ++ bytes_of b fs)
  unfolding send_all send bytes_of
  send_all-bytes [] wire = ap tcp (sym (append-nil wire))
  send_all-bytes (f ∷ fs) wire =
      rw (framed.write_item (encode b f) wire (encode b f []).1 (encode_empty f), send_all)
        (send_all-bytes fs (wire ++ (encode b f []).1)
          ∙ ap tcp (append_assoc wire (encode b f []).1 (bytes_of b fs)))

  decode_first :
      (f : Frame) (rest : List ℕ)
      → Fits f
      → decode b now ((encode b f []).1 ++ rest) ≡ (ok (some (received now f)), rest)
  unfolding encode
  decode_first f rest h = decode-encode laws now f rest h.0 h.1

  encode-nonempty : (f : Frame) (rest : List ℕ) → (encode b f []).1 ++ rest ≢ []
  unfolding header head
  encode-nonempty f rest e = cc (rw (ap (λ x. x.1) (encode-layout laws f 0 []).0) at e)

  decode_nothing : decode b now [] ≡ (ok none, [])
  unfolding decode
  decode_nothing = refl

  abbrev expected : Frame → Poll (Option (Reply Frame))
  expected f = ready (some (ok (received now f)))

  -- So many reads give the frames, and nothing is left.
  abbrev Drains : Reader → List Frame → Type 0
  Drains r fs =
      (left : Reader) × (next_all b t m now (length fs) (tcp r) ≡ (map expected fs, tcp left))
      × (left.buffer ≡ [])
      × (left.chunks ≡ [])

  -- Readers that give the same.
  next_all-same :
      (r s : Reader) (f : Frame) (fs : List Frame)
      → t.next (decode b now) r ≡ t.next (decode b now) s
      → Drains s (f ∷ fs)
      → Drains r (f ∷ fs)
  unfolding next_all next
  next_all-same r s f fs e (left, d, buffered, unread) =
      (left, rw (e, next_all) d, buffered, unread)

  drain-group :
      (fs : List Frame) (groups : List (Frame × List Frame))
      → All Fits fs
      → Drains (reader true [] (reads_of b groups)) (frames_of groups)
      → Drains (reader true (bytes_of b fs) (reads_of b groups)) (fs ++ frames_of groups)
  unfolding next_all next bytes_of
  drain-group [] groups h later = later
  drain-group (f ∷ fs) groups h later =
      let (left, d, buffered, unread) = drain-group fs groups h.1 later in
      (
        left,
        rw
            (
              framed.next_item (decode b now) _ _ _ (reads_of b groups)
                  (decode_first f (bytes_of b fs) h.0),
              next_all,
              d,
            )
            refl,
        buffered,
        unread,
      )

  -- A read that brings a group.
  drain-read :
      (f : Frame) (fs : List Frame) (groups : List (Frame × List Frame))
      → All Fits (f ∷ fs)
      → Drains (reader true [] (reads_of b groups)) (frames_of groups)
      → Drains (reader false [] (reads_of b ((f, fs) ∷ groups))) (frames_of ((f, fs) ∷ groups))
  unfolding reads_of frames_of bytes_of
  drain-read f fs groups h later =
      next_all-same _ (reader true (bytes_of b (f ∷ fs)) (reads_of b groups)) f
        (fs ++ frames_of groups)
        (framed.next_read (decode b now) [] (bytes_of b (f ∷ fs)) (reads_of b groups)
          (encode-nonempty f (bytes_of b fs)))
        (drain-group (f ∷ fs) groups h later)

  drain-groups :
      (groups : List (Frame × List Frame))
      → All (λ g. All Fits (g.0 ∷ g.1)) groups
      → Drains (reader true [] (reads_of b groups)) (frames_of groups)
  unfolding reads_of frames_of next_all
  drain-groups [] h = (reader true [] [], refl, refl, refl)
  drain-groups ((f, fs) ∷ groups) h =
      next_all-same _ (reader false [] (reads_of b ((f, fs) ∷ groups))) f (fs ++ frames_of groups)
        (framed.next_none (decode b now) [] [] (reads_of b ((f, fs) ∷ groups)) decode_nothing)
        (drain-read f fs groups h.0 (drain-groups groups h.1))

  drain :
      (groups : List (Frame × List Frame))
      → All (λ g. All Fits (g.0 ∷ g.1)) groups
      → Drains (reader false [] (reads_of b groups)) (frames_of groups)
  unfolding reads_of frames_of next_all
  drain [] h = (reader false [] [], refl, refl, refl)
  drain ((f, fs) ∷ groups) h = drain-read f fs groups h.0 (drain-groups groups h.1)

  bytes_of-append : (fs gs : List Frame) → bytes_of b (fs ++ gs) ≡ bytes_of b fs ++ bytes_of b gs
  unfolding bytes_of
  bytes_of-append [] gs = refl
  bytes_of-append (f ∷ fs) gs =
      rw (bytes_of-append fs gs) (sym (append_assoc (encode b f []).1 _ _))

  joined-reads_of :
      (groups : List (Frame × List Frame))
      → joined (reads_of b groups) ≡ bytes_of b (frames_of groups)
  unfolding joined reads_of frames_of bytes_of
  joined-reads_of [] = refl
  joined-reads_of ((f, fs) ∷ groups) =
      ap (λ x. bytes_of b (f ∷ fs) ++ x) (joined-reads_of groups)
      ∙ sym (bytes_of-append (f ∷ fs) (frames_of groups))

  -- With buffers and framed streams that keep their crates' contracts: groups of one or more
  -- frames of less than 2^16 bytes announced length whose numbers and lists fit their fields,
  -- and, for tree packets, with two coordinates of one length, that are sent one after the other
  -- over a new connection put some bytes on the wire. Where each read of the receiver's socket
  -- brings the bytes of one group, which together are the wire's, as many calls of `next` on the
  -- new connection as there are frames yield exactly these frames, in order (announcements with
  -- the receiver's time and order 0), and leave no bytes.
  pub next_all-send_all :
      (groups : List (Frame × List Frame))
      → All (λ g. All Fits (g.0 ∷ g.1)) groups
      → (wire : List ℕ) × (send_all b t m (frames_of groups) (tcp []) ≡ tcp wire)
        × (joined (reads_of b groups) ≡ wire)
        × (left : Reader) × (next_all b t m now
              (length (frames_of groups))
              (tcp (reader false [] (reads_of b groups)))
            ≡ (map (λ f. ready (some (ok (received now f)))) (frames_of groups), tcp left))
        × (left.buffer ≡ [])
        × (left.chunks ≡ [])
  next_all-send_all groups h =
      let (left, d, buffered, unread) = drain groups h in
      (
        bytes_of b (frames_of groups),
        send_all-bytes (frames_of groups) [],
        joined-reads_of groups,
        left,
        d,
        buffered,
        unread,
      )
