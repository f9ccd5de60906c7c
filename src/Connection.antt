-- ===== src/Connection.antt =====
-- src/connection.rs: the two directions of a connection, as frames over bytes. `FramedRead` and
-- `FramedWrite` of tokio_util, which run the codec, are the record `Framing`; `IsFraming` says what
-- their documentation promises.
pub mod Stream
pub mod Cut
use rust_pinecone.Prelude.{
  ℕ, ◌≡◌, ◌≢◌, refl, Bool, true, false, ap, List, [], ◌∷◌, ◌++◌, Option, none, some, Reply, ok, err,
  panic, M, RouterError, connection_closed,
}
use rust_pinecone.Bytes.{BytesMut}
use rust_pinecone.Frames.{Frame}
use rust_pinecone.Channel.{Channel, Poll, ready, pending, Sent, accepted, full, closed, Mpsc}
use rust_pinecone.Wire.Encode.{encode}
use rust_pinecone.Wire.Decode.{decode}

-- A framed stream keeps the bytes that it has read and the decoder has not taken, and whether they may
-- hold a frame. `chunks` lists what further reads of its socket give.
pub record Reader : Type 0 where
  pub buffer : List ℕ
  pub readable : Bool
  pub chunks : List (List ℕ)

pub record Framing : Type 0 where
  pub next : M (List ℕ) (Option Frame) → Reader → Poll (Option (Reply Frame)) × Reader
  pub write : M (List ℕ) (Unit {0}) → List ℕ → Poll (Reply (Unit {0})) × List ℕ

-- The decoder runs on what has been read so far. Where it wants more, the stream reads once and runs
-- it again, or waits if nothing has come. A write runs an encoder on its empty buffer and puts out
-- what it wrote, behind the bytes that went before.
pub record IsFraming (t : Framing) : Type 0 where
  pub next_item :
      (d : M (List ℕ) (Option Frame)) (src rest : List ℕ) (f : Frame) (chunks : List (List ℕ))
      → d src ≡ (ok (some f), rest)
      → t.next d (record { buffer = src; readable = true; chunks = chunks })
        ≡ (ready (some (ok f)), record { buffer = rest; readable = true; chunks = chunks })
  pub next_error :
      (d : M (List ℕ) (Option Frame)) (src rest : List ℕ) (e : RouterError) (chunks : List (List ℕ))
      → d src ≡ (err e, rest)
      → (t.next d (record { buffer = src; readable = true; chunks = chunks })).0
        ≡ ready (some (err e))
  pub next_none :
      (d : M (List ℕ) (Option Frame)) (src rest : List ℕ) (chunks : List (List ℕ))
      → d src ≡ (ok none, rest)
      → t.next d (record { buffer = src; readable = true; chunks = chunks })
        ≡ t.next d (record { buffer = rest; readable = false; chunks = chunks })
  pub next_read :
      (d : M (List ℕ) (Option Frame)) (src chunk : List ℕ) (chunks : List (List ℕ))
      → chunk ≢ []
      → t.next d (record { buffer = src; readable = false; chunks = chunk ∷ chunks })
        ≡ t.next d (record { buffer = src ++ chunk; readable = true; chunks = chunks })
  pub next_wait :
      (d : M (List ℕ) (Option Frame)) (src : List ℕ)
      → t.next d (record { buffer = src; readable = false; chunks = [] })
        ≡ (pending, record { buffer = src; readable = false; chunks = [] })
  pub write_item :
      (e : M (List ℕ) (Unit {0})) (wire out : List ℕ)
      → e [] ≡ (ok tt, out)
      → t.write e wire ≡ (ready (ok tt), wire ++ out)

-- A transport that behaves so. An empty read is the end of the stream.
abbrev decoded :
    Reply (Option Frame) × List ℕ
    → (List ℕ → Poll (Option (Reply Frame)) × Reader)
    → List (List ℕ)
    → Poll (Option (Reply Frame)) × Reader
decoded (ok none, rest) more chunks = more rest
decoded (ok (some f), rest) more chunks =
    (ready (some (ok f)), record { buffer = rest; readable = true; chunks = chunks })
decoded (err e, rest) more chunks =
    (ready (some (err e)), record { buffer = rest; readable = false; chunks = chunks })
decoded (panic, rest) more chunks =
    (ready (some panic), record { buffer = rest; readable = false; chunks = chunks })

abbrev read_more :
    M (List ℕ) (Option Frame) → List (List ℕ) → List ℕ → Poll (Option (Reply Frame)) × Reader
read_more d [] src = (pending, record { buffer = src; readable = false; chunks = [] })
read_more d ([] ∷ chunks) src =
    (ready none, record { buffer = src; readable = false; chunks = chunks })
read_more d ((x ∷ xs) ∷ chunks) src = decoded (d (src ++ x ∷ xs)) (read_more d chunks) chunks

abbrev next_of : M (List ℕ) (Option Frame) → Reader → Poll (Option (Reply Frame)) × Reader
next_of d r = elim r.readable [
  | true ↦ decoded (d r.buffer) (read_more d r.chunks) r.chunks
  | false ↦ read_more d r.chunks r.buffer
]

abbrev write_of : List ℕ → Reply (Unit {0}) × List ℕ → Poll (Reply (Unit {0})) × List ℕ
write_of wire (ok u, out) = (ready (ok u), wire ++ out)
write_of wire (err e, out) = (ready (err e), wire)
write_of wire (panic, out) = (ready panic, wire)

abbrev pub framing : Framing
framing = record { next = next_of; write = λ e wire. write_of wire (e []) }

read_more-chunk :
    (d : M (List ℕ) (Option Frame)) (src chunk : List ℕ) (chunks : List (List ℕ))
    → chunk ≢ []
    → read_more d (chunk ∷ chunks) src ≡ decoded (d (src ++ chunk)) (read_more d chunks) chunks
read_more-chunk d src [] chunks h = absurd (h refl)
read_more-chunk d src (x ∷ xs) chunks h = refl

pub framing-IsFraming : IsFraming framing
framing-IsFraming = record {
  next_item = λ d src rest f chunks h. ap (λ x. decoded x (read_more d chunks) chunks) h;
  next_error = λ d src rest e chunks h. ap (λ x. (decoded x (read_more d chunks) chunks).0) h;
  next_none = λ d src rest chunks h. ap (λ x. decoded x (read_more d chunks) chunks) h;
  next_read = read_more-chunk;
  next_wait = λ d src. refl;
  write_item = λ e wire out h. ap (write_of wire) h;
}

-- `tcp` holds the reader of the stream, or the bytes that have gone; `test` exists in tests.
pub data DownloadConnection : Type 0 where
  tcp : Reader → DownloadConnection
  test : Channel Frame → DownloadConnection

pub data UploadConnection : Type 0 where
  tcp : List ℕ → UploadConnection
  test : Channel Frame → UploadConnection

abbrev received_frame : Poll (Option Frame) → Poll (Option (Reply Frame))
received_frame (ready none) = ready none
received_frame (ready (some frame)) = ready (some (ok frame))
received_frame pending = pending

-- The error of a closed channel is turned into `ConnectionClosed`.
abbrev sent_frame : Sent → Poll (Reply (Unit {0}))
sent_frame accepted = ready (ok tt)
sent_frame full = pending
sent_frame closed = ready (err connection_closed)

module _ (b : BytesMut) (t : Framing) (m : Mpsc Frame) where
  unfoldable pub next : ℕ → DownloadConnection → Poll (Option (Reply Frame)) × DownloadConnection
  next now (tcp reader) =
      let (result, reader') = t.next (decode b now) reader in (result, tcp reader')
  next now (test channel) =
      let (result, channel') = m.poll_recv channel in (received_frame result, test channel')

  unfoldable pub send : Frame → UploadConnection → Poll (Reply (Unit {0})) × UploadConnection
  send frame (tcp wire) = let (result, wire') = t.write (encode b frame) wire in (result, tcp wire')
  send frame (test channel) =
      let (result, channel') = m.send frame channel in (sent_frame result, test channel')
