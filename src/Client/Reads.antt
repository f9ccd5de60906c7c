-- ===== src/Client/Reads.antt =====
-- The download loop of `Client::new` of src/client.rs with the sessions of src/session.rs at both
-- ends: what was written there is what is read here.
use rust_pinecone.Prelude.{
  ℕ, ◌≤◌, ◌≡◌, refl, sym, ◌∙◌, ap, subst, arith, true, List, [], ◌∷◌, ◌++◌, append-nil, map, some,
  length, length-map,
}
use rust_pinecone.Prelude.Maps.{nat_eq, get}
use rust_pinecone.Tree.{PublicKey}
use rust_pinecone.Frames.{Frame}
use rust_pinecone.Channel.{Channel, Mpsc, IsFifo}
use rust_pinecone.Session.{ChannelId, Session, ReadBuf, remaining}
use rust_pinecone.Session.Transfer.{
  packet_of, joined, write_all, read_all, write_all-queue, read_all-joined,
}
use rust_pinecone.Client.{
  Client, Round, through, waits_with_frame, waits_with_session, handle_download,
}
use rust_pinecone.Client.Streams.{
  from_source, next_round, dispatch_all, Serves, Dispatched, dispatch_all-Dispatched,
}
use rust_pinecone.Client.Separate.{AreSeparate}

module _ {frames : Mpsc Frame} (laws : IsFifo frames) (sessions : Mpsc Session) where
  -- Nothing is left of frames that are through.
  next_round_through :
      (round : Round) (c : Client) (fs : List Frame)
      → ((dispatch_all frames sessions fs c).0 ≡ through
          → (dispatch_all frames sessions fs c).1 ≡ [])
      → (next_round frames sessions (round, c) fs (dispatch_all frames sessions fs)).0 ≡ through
      → (next_round frames sessions (round, c) fs (dispatch_all frames sessions fs)).1 ≡ []
  next_round_through through c fs rest e = rest e
  next_round_through (waits_with_frame frame) c fs rest e = absurd (cc e)
  next_round_through (waits_with_session t) c fs rest e = absurd (cc e)

  dispatch_all_through :
      (fs : List Frame) (c : Client)
      → (dispatch_all frames sessions fs c).0 ≡ through
      → (dispatch_all frames sessions fs c).1 ≡ []
  unfolding dispatch_all
  dispatch_all_through [] c e = refl
  dispatch_all_through (f ∷ fs) c e =
      let round = handle_download frames sessions f c in
      next_round_through round.0 round.1 fs (dispatch_all_through fs round.1) e

  dispatch_all_whole :
      (k : PublicKey) (id : ChannelId) (ch : Channel Frame) (fs q : List Frame) (c : Client)
      → (dispatch_all frames sessions fs c).0 ≡ through
      → Dispatched laws sessions k id ch q fs (dispatch_all frames sessions fs c)
      → Serves laws sessions k id ch (dispatch_all frames sessions fs c).2 (q ++ from_source k fs)
  dispatch_all_whole k id ch fs q c e (handled, split, s) =
      subst
        (λ x.
          Serves laws sessions k id ch (dispatch_all frames sessions fs c).2 (q ++ from_source k x))
        (sym (append-nil handled)
          ∙ ap (λ x. handled ++ x) (sym (dispatch_all_through fs c e))
          ∙ split)
        s

  -- With channels that keep tokio's contract: a session wrote lists of bytes to an open, empty
  -- upload channel with room for them, and the frames that came to a client, whose sessions are
  -- on different channels, are in order those of this session and any of other sources. Where the
  -- client has an open, empty channel with room for the session's node, and its download loop
  -- gets through, as many reads there as were writes, into a buffer with room, give exactly the
  -- bytes that were written, in order, and leave the channel empty.
  pub dispatch_all-read_all :
      (s : Session) (ps : List (List ℕ)) (upload : Channel Frame) (fs : List Frame) (c : Client)
      (id : ChannelId) (ch : Channel Frame) (buf : ReadBuf)
      → upload.queue ≡ []
      → upload.receiving ≡ true
      → length ps ≤ upload.capacity
      → from_source s.router_key fs ≡ (write_all frames s ps upload).queue
      → AreSeparate c
      → get c.session_senders s.router_key ≡ some id
      → get c.channels id ≡ some (record ch { queue = [] })
      → ch.receiving ≡ true
      → length ps ≤ ch.capacity
      → length (joined ps) ≤ remaining buf
      → (dispatch_all frames sessions fs c).0 ≡ through
      → (d : Channel Frame) × (get (dispatch_all frames sessions fs c).2.channels id ≡ some d)
        × (read_all frames (length ps) buf d
            ≡ (record buf { filled = buf.filled ++ joined ps }, record d { queue = [] }))
  dispatch_all-read_all s ps upload fs c id ch buf empty open_up room same sep own at open_down
        fits_down fits e =
      let sent =
        same ∙ write_all-queue laws s ps upload open_up (rw empty (omega arith)) ∙ rw empty in
      let came = dispatch_all_whole s.router_key id ch fs [] c e (
        dispatch_all-Dispatched laws sessions s.router_key id ch fs [] c open_down
          (rw (sent, length-map) (omega arith)) (sep, own, at)) in
      (
        record ch { queue = map (packet_of s) ps },
        came.2 ∙ ap (λ q. some (record ch { queue = q })) sent,
        subst
            (λ q.
              read_all frames (length ps) buf (record ch { queue = q })
              ≡ (record buf { filled = buf.filled ++ joined ps }, record ch { queue = [] }))
            (append-nil (map (packet_of s) ps)) (read_all-joined laws s ps buf ch [] fits),
      )
