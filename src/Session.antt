-- ===== src/Session.antt =====
-- src/session.rs: the two ends of a conversation with another node, as a byte stream each way.
pub mod Transfer
use rust_pinecone.Prelude.{
  ℕ, ◌+◌, ◌-◌, ◌≡◌, Bool, true, false, List, [], ◌∷◌, ◌++◌, Option, none, some, String, length, ltb,
  if◌then◌else◌,
}
use rust_pinecone.Channel.{Channel, Poll, ready, pending, Sent, accepted, full, closed, Mpsc}
use rust_pinecone.Tree.{PublicKey}
use rust_pinecone.Frames.{SnekPacket, Frame, snek_routed}

-- A channel is named, since a sender and a receiver share it (Client has the store).
abbrev pub ChannelId : Type 0
ChannelId = ℕ

-- The field `upload` of both is the client's one upload channel, an argument below.
pub record Session : Type 0 where
  pub router_key : PublicKey
  pub dialed_key : PublicKey
  pub download : ChannelId

pub record SendSession : Type 0 where
  pub router_key : PublicKey
  pub dialed_key : PublicKey

-- `std::io::ErrorKind`
pub data ErrorKind : Type 0 where
  broken_pipe out_of_memory : ErrorKind

-- `std::io::Result`
pub data IoResult (A : Type 0) : Type 0 where
  done : A → IoResult A
  failed : ErrorKind → String → IoResult A

-- `tokio::io::ReadBuf`: what was put into it, and how much it holds in all.
pub record ReadBuf : Type 0 where
  pub filled : List ℕ
  pub capacity : ℕ

abbrev pub remaining : ReadBuf → ℕ
remaining buf = buf.capacity - length buf.filled

-- A frame that was received; only a packet of the overlay has a payload to give.
unfoldable pub read_frame : Frame → ReadBuf → Poll (IoResult (Unit {0})) × ReadBuf
read_frame (snek_routed packet) buf =
    if ltb (remaining buf) (length packet.payload)
    then (ready (failed out_of_memory "Buffer not large enough"), buf)
    else (ready (done tt), record buf { filled = buf.filled ++ packet.payload })
read_frame frame buf = (ready (done tt), buf)

unfoldable pub read_polled : Poll (Option Frame) → ReadBuf → Poll (IoResult (Unit {0})) × ReadBuf
unfolding read_frame
read_polled (ready none) buf = (ready (failed broken_pipe "Session download channel closed"), buf)
read_polled (ready (some frame)) buf = read_frame frame buf
read_polled pending buf = (pending, buf)

-- What a `try_send` of so many bytes gives the writer.
abbrev pub written : ℕ → Sent → Poll (IoResult ℕ)
written n accepted = ready (done n)
written n full = pending
written n closed = ready (failed broken_pipe "Session upload channel closed")

module _ (m : Mpsc Frame) where
  -- The buffer and the download channel after the read.
  unfoldable pub poll_read :
      ReadBuf → Channel Frame → Poll (IoResult (Unit {0})) × ReadBuf × Channel Frame
  poll_read buf download =
      let (received, download') = m.poll_recv download in
      let (result, buf') = read_polled received buf in (result, buf', download')

  -- `poll_write` of `Session` and of `SendSession`, which differ in nothing else.
  unfoldable pub write_packet :
      PublicKey → PublicKey → List ℕ → Channel Frame → Poll (IoResult ℕ) × Channel Frame
  write_packet dialed_key router_key buf upload =
      let frame =
        snek_routed
          (record { destination_key = dialed_key; source_key = router_key; payload = buf }) in
      let (sent, upload') = m.try_send frame upload in (written (length buf) sent, upload')

  unfoldable pub poll_write : Session → List ℕ → Channel Frame → Poll (IoResult ℕ) × Channel Frame
  poll_write s buf upload = write_packet s.dialed_key s.router_key buf upload

  unfoldable pub send_session_poll_write :
      SendSession → List ℕ → Channel Frame → Poll (IoResult ℕ) × Channel Frame
  send_session_poll_write s buf upload = write_packet s.dialed_key s.router_key buf upload

-- Nothing is buffered.
unfoldable pub poll_flush : Poll (IoResult (Unit {0}))
poll_flush = ready (done tt)

unfoldable pub poll_shutdown : Poll (IoResult (Unit {0}))
poll_shutdown = ready (done tt)
