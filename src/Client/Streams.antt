-- ===== src/Client/Streams.antt =====
-- The download loop of `Client::new` of src/client.rs on frames that came: what goes into the channel
-- of a session.
use rust_pinecone.Prelude.{
  ◌+◌, ◌≤◌, ◌<◌, ◌≡◌, inl, inr, refl, ◌∙◌, ap, subst, arith, Bool, true, false, List, [], ◌∷◌, ◌++◌,
  append_assoc, append-nil, some, length, length-append, lt→ltb, ◌==◌, ==_self, ==_iff,
  if◌then◌else◌, Bool-cases,
}
use rust_pinecone.Prelude.Maps.{nat_eq, get, get-insert}
use rust_pinecone.Tree.{PublicKey}
use rust_pinecone.Frames.{Frame, SnekPacket, snek_routed, tree_routed}
use rust_pinecone.Channel.{Channel, Mpsc, IsFifo}
use rust_pinecone.Session.{ChannelId, Session}
use rust_pinecone.Client.{
  Client, Round, through, waits_with_frame, waits_with_session, set_channel, forward,
  forward_result, handle_download,
}
use rust_pinecone.Client.Separate.{AreSeparate}
use rust_pinecone.Client.Dispatch.{handle_download-AreSeparate, handle_download_isolates}

-- The packets of one source among frames that came.
unfoldable pub comes_from : PublicKey → Frame → Bool
comes_from k (snek_routed packet) = packet.source_key == k
comes_from k frame = false

unfoldable pub from_source : PublicKey → List Frame → List Frame
from_source k [] = []
from_source k (f ∷ fs) = if comes_from k f then f ∷ from_source k fs else from_source k fs

module _ (frames : Mpsc Frame) (sessions : Mpsc Session) where
  abbrev pub next_round :
      Round × Client
      → List Frame
      → (Client → Round × List Frame × Client)
      → Round × List Frame × Client
  next_round (through, c) fs f = f c
  next_round (waits_with_frame frame, c) fs f = (waits_with_frame frame, fs, c)
  next_round (waits_with_session s, c) fs f = (waits_with_session s, fs, c)

  -- The download loop on frames that came: until they are through or a round waits, with what is
  -- left of them then.
  unfoldable pub dispatch_all : List Frame → Client → Round × List Frame × Client
  dispatch_all [] c = (through, [], c)
  dispatch_all (f ∷ fs) c = next_round (handle_download frames sessions f c) fs (dispatch_all fs)

module _ {frames : Mpsc Frame} (laws : IsFifo frames) (sessions : Mpsc Session) where
  forward_accepted :
      (packet : SnekPacket) (c : Client) (id : ChannelId) (ch : Channel Frame)
      → get c.session_senders packet.source_key ≡ some id
      → get c.channels id ≡ some ch
      → ch.receiving ≡ true
      → length ch.queue < ch.capacity
      → handle_download frames sessions (snek_routed packet) c
        ≡ (through, set_channel id (record ch { queue = ch.queue ++ snek_routed packet ∷ [] }) c)
  unfolding handle_download forward forward_result
  forward_accepted packet c id ch own at open_end room =
      rw (own, at, laws.send_lem, open_end, lt→ltb _ _ room, handle_download, forward) refl

  -- The session of a key is on a channel, which holds these frames.
  abbrev pub Serves : PublicKey → ChannelId → Channel Frame → Client → List Frame → Type 0
  Serves k id ch c q =
      AreSeparate c
      × (get c.session_senders k ≡ some id)
      × (get c.channels id ≡ some (record ch { queue = q }))

  -- Frames were handled in order, of which those of the key went into its channel.
  abbrev pub Dispatched :
      PublicKey
      → ChannelId
      → Channel Frame
      → List Frame
      → List Frame
      → Round × List Frame × Client
      → Type 0
  Dispatched k id ch q fs end =
      (handled : List Frame) × (handled ++ end.1 ≡ fs)
      × Serves k id ch end.2 (q ++ from_source k handled)

  -- A frame of the key goes into its channel.
  own_frame-Serves :
      (k : PublicKey) (id : ChannelId) (ch : Channel Frame) (q : List Frame) (f : Frame)
      (c : Client)
      → comes_from k f ≡ true
      → ch.receiving ≡ true
      → length q < ch.capacity
      → Serves k id ch c q
      → Serves k id ch (handle_download frames sessions f c).1 (q ++ f ∷ [])
  unfolding set_channel comes_from
  own_frame-Serves k id ch q (snek_routed packet) c own open_end room s =
      rw
        (forward_accepted packet c id (record ch { queue = q })
          (rw ((==_iff packet.source_key k).0 own) s.1) s.2 open_end room)
        (s.0, s.1, get-insert c.channels id id _ ∙ rw (==_self id))
  own_frame-Serves k id ch q frame c own open_end room s = absurd (cc own)

  later-Dispatched :
      (k : PublicKey) (id : ChannelId) (ch : Channel Frame) (q : List Frame) (f : Frame)
      (fs : List Frame) (end : Round × List Frame × Client)
      → comes_from k f ≡ false
      → Dispatched k id ch q fs end
      → Dispatched k id ch q (f ∷ fs) end
  unfolding from_source
  later-Dispatched k id ch q f fs end other (handled, split, s) =
      (f ∷ handled, ap (λ x. f ∷ x) split, rw (other, from_source) s)

  own-Dispatched :
      (k : PublicKey) (id : ChannelId) (ch : Channel Frame) (q : List Frame) (f : Frame)
      (fs : List Frame) (end : Round × List Frame × Client)
      → comes_from k f ≡ true
      → Dispatched k id ch (q ++ f ∷ []) fs end
      → Dispatched k id ch q (f ∷ fs) end
  unfolding from_source
  own-Dispatched k id ch q f fs end own (handled, split, s) = (
    f ∷ handled,
    ap (λ x. f ∷ x) split,
    rw (own, from_source)
        (subst (Serves k id ch end.2) (append_assoc q (f ∷ []) (from_source k handled)) s),
  )

  -- A round that waits ends the loop.
  next_round-Dispatched :
      (k : PublicKey) (id : ChannelId) (ch : Channel Frame) (q : List Frame) (fs : List Frame)
      (round : Round) (c : Client)
      → Serves k id ch c q
      → Dispatched k id ch q fs (dispatch_all frames sessions fs c)
      → Dispatched k id ch q fs
          (next_round frames sessions (round, c) fs (dispatch_all frames sessions fs))
  unfolding from_source
  next_round-Dispatched k id ch q fs through c s d = d
  next_round-Dispatched k id ch q fs (waits_with_frame frame) c s d = ([], refl, rw append-nil s)
  next_round-Dispatched k id ch q fs (waits_with_session t) c s d = ([], refl, rw append-nil s)

  handle_download-Serves :
      (k : PublicKey) (id : ChannelId) (ch : Channel Frame) (q : List Frame) (f : Frame)
      (c : Client)
      → comes_from k f ≡ false
      → Serves k id ch c q
      → Serves k id ch (handle_download frames sessions f c).1 q
  unfolding comes_from handle_download
  handle_download-Serves k id ch q (snek_routed packet) c other s =
      (let kept =
          handle_download_isolates frames sessions packet c k id s.0
            (λ e. absurd (cc (e, other, ==_self k))) s.1 in
        (
          handle_download-AreSeparate frames sessions (snek_routed packet) c s.0,
          kept.0,
          kept.1 ∙ s.2,
        ))
  handle_download-Serves k id ch q (tree_routed packet) c other s = s
  handle_download-Serves k id ch q frame c other s = s

  -- With channels that keep tokio's contract, and at a client whose sessions are on different
  -- channels: where a source has an open channel with room for all of its packets among the
  -- frames that came, the download loop handles a first part of them, all up to what it leaves,
  -- and the channel of the source refines a queue: it then holds what it held, followed by
  -- exactly the packets of this source in that part, in order, whatever comes from others.
  pub dispatch_all-Dispatched :
      (k : PublicKey) (id : ChannelId) (ch : Channel Frame) (fs q : List Frame) (c : Client)
      → ch.receiving ≡ true
      → length q + length (from_source k fs) ≤ ch.capacity
      → Serves k id ch c q
      → Dispatched k id ch q fs (dispatch_all frames sessions fs c)
  unfolding dispatch_all from_source
  dispatch_all-Dispatched k id ch [] q c open_end room s = ([], refl, rw append-nil s)
  dispatch_all-Dispatched k id ch (f ∷ fs) q c open_end room s =
      let end =
        next_round frames sessions (handle_download frames sessions f c) fs
          (dispatch_all frames sessions fs) in
      elim (Bool-cases (comes_from k f)) [
        | inl own ↦ own-Dispatched k id ch q f fs end own (
            let next = own_frame-Serves k id ch q f c own open_end (ground arith) s in
            next_round-Dispatched k id ch (q ++ f ∷ []) fs _ _ next (
              dispatch_all-Dispatched k id ch fs (q ++ f ∷ []) _ open_end
                (ground (arith, length-append q (f ∷ []))) next))
        | inr other ↦ later-Dispatched k id ch q f fs end other (
            let next = handle_download-Serves k id ch q f c other s in
            next_round-Dispatched k id ch q fs _ _ next
              (dispatch_all-Dispatched k id ch fs q _ open_end (ground arith) next))
      ]
