-- ===== src/Session/Transfer.antt =====
-- `poll_write` and `poll_read` of src/session.rs: a run of writes, and a run of reads.
use rust_pinecone.Prelude.{
  ℕ, zero, suc, ◌+◌, ◌≤◌, ◌<◌, ◌≡◌, refl, ap, ◌∙◌, arith, true, List, [], ◌∷◌, ◌++◌, append_assoc,
  append-nil, map, length, length-append, lt→ltb, le→ltb,
}
use rust_pinecone.Channel.{Channel, ready, Mpsc, IsFifo}
use rust_pinecone.Frames.{Frame, snek_routed}
use rust_pinecone.Session.{
  Session, done, ReadBuf, remaining, read_frame, read_polled, poll_read, poll_write, write_packet,
  failed, out_of_memory,
}

-- The frame that a session sends for some bytes.
abbrev pub packet_of : Session → List ℕ → Frame
packet_of s bytes =
    snek_routed
      (record { destination_key = s.dialed_key; source_key = s.router_key; payload = bytes })

abbrev pub joined : List (List ℕ) → List ℕ
joined [] = []
joined (x ∷ xs) = x ++ joined xs

module _ (m : Mpsc Frame) where
  -- One write for each list of bytes.
  unfoldable pub write_all : Session → List (List ℕ) → Channel Frame → Channel Frame
  write_all s [] upload = upload
  write_all s (bytes ∷ rest) upload = write_all s rest (poll_write m s bytes upload).1

  -- So many reads, into one buffer.
  unfoldable pub read_all : ℕ → ReadBuf → Channel Frame → ReadBuf × Channel Frame
  read_all zero buf download = (buf, download)
  read_all (suc n) buf download =
      let (result, buf', download') = poll_read m buf download in read_all n buf' download'

module _ {m : Mpsc Frame} (laws : IsFifo m) where
  -- While the channel has room, a write is accepted and its frame goes behind the others.
  pub poll_write_accepted :
      (s : Session) (bytes : List ℕ) (upload : Channel Frame)
      → upload.receiving ≡ true
      → length upload.queue < upload.capacity
      → poll_write m s bytes upload ≡ (
        ready (done (length bytes)),
        record upload { queue = upload.queue ++ packet_of s bytes ∷ [] },
      )
  unfolding poll_write write_packet
  poll_write_accepted s bytes upload open_end room =
      rw (laws.try_send_lem, open_end, lt→ltb _ _ room) refl

  pub write_all-queue :
      (s : Session) (ps : List (List ℕ)) (upload : Channel Frame)
      → upload.receiving ≡ true
      → length upload.queue + length ps ≤ upload.capacity
      → (write_all m s ps upload).queue ≡ upload.queue ++ map (packet_of s) ps
  unfolding write_all
  write_all-queue s [] upload open_end room = rw append-nil
  write_all-queue s (bytes ∷ rest) upload open_end room =
      rw (poll_write_accepted s bytes upload open_end (omega arith), write_all)
        (write_all-queue s rest (record upload { queue = upload.queue ++ packet_of s bytes ∷ [] })
            open_end (omega (arith, length-append upload.queue (packet_of s bytes ∷ [])))
          ∙ rw append_assoc)

  -- A packet that fits goes into the buffer whole.
  poll_read_fits :
      (s : Session) (bytes : List ℕ) (buf : ReadBuf) (d : Channel Frame) (rest : List Frame)
      → length bytes ≤ remaining buf
      → poll_read m buf (record d { queue = packet_of s bytes ∷ rest })
        ≡ (ready (done tt), record buf { filled = buf.filled ++ bytes }, record d { queue = rest })
  unfolding poll_read read_polled read_frame
  poll_read_fits s bytes buf d rest fits = rw (laws.poll_recv_lem, le→ltb _ _ fits) refl

  pub read_all-joined :
      (s : Session) (ps : List (List ℕ)) (buf : ReadBuf) (d : Channel Frame) (rest : List Frame)
      → length (joined ps) ≤ remaining buf
      → read_all m (length ps) buf (record d { queue = map (packet_of s) ps ++ rest })
        ≡ (record buf { filled = buf.filled ++ joined ps }, record d { queue = rest })
  unfolding read_all
  read_all-joined s [] buf d rest fits = rw append-nil
  read_all-joined s (bytes ∷ ps) buf d rest fits =
      rw
        (
          poll_read_fits s bytes buf d (map (packet_of s) ps ++ rest)
              (omega (arith, length-append bytes (joined ps))),
          read_all,
        )
        (read_all-joined s ps (record buf { filled = buf.filled ++ bytes }) d rest
            (omega (arith, length-append bytes (joined ps), length-append buf.filled bytes))
          ∙ rw append_assoc)

  -- One that does not fit is gone.
  poll_read_over :
      (s : Session) (bytes : List ℕ) (buf : ReadBuf) (d : Channel Frame) (rest : List Frame)
      → remaining buf < length bytes
      → poll_read m buf (record d { queue = packet_of s bytes ∷ rest })
        ≡ (ready (failed out_of_memory "Buffer not large enough"), buf, record d { queue = rest })
  unfolding poll_read read_polled read_frame
  poll_read_over s bytes buf d rest over = rw (laws.poll_recv_lem, lt→ltb _ _ over) refl

  -- With channels that keep tokio's contract: of two packets in a session's channel, where the
  -- first does not fit into the buffer and the second does, the first read is an error, and after
  -- two reads the buffer has the bytes of the second only and both packets are gone.
  pub poll_read_skips :
      (s : Session) (large next : List ℕ) (buf : ReadBuf) (d : Channel Frame) (rest : List Frame)
      → remaining buf < length large
      → length next ≤ remaining buf
      → (poll_read m buf (record d { queue = packet_of s large ∷ packet_of s next ∷ rest })).0
          ≡ ready (failed out_of_memory "Buffer not large enough")
        × (read_all m 2 buf (record d { queue = packet_of s large ∷ packet_of s next ∷ rest })
            ≡ (record buf { filled = buf.filled ++ next }, record d { queue = rest }))
  unfolding read_all
  poll_read_skips s large next buf d rest over fits = (
    ap (λ x. x.0) (poll_read_over s large buf d (packet_of s next ∷ rest) over),
    rw
        (
          poll_read_over s large buf d (packet_of s next ∷ rest) over,
          poll_read_fits s next buf d rest fits,
          read_all,
        )
        refl,
  )
