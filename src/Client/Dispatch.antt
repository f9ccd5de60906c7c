-- ===== src/Client/Dispatch.antt =====
-- `handle_download`, the loop of `Client::new` of src/client.rs, and `dial`: whose channels they touch.
use rust_pinecone.Prelude.{
  ◌≡◌, ◌≢◌, ◌⊎◌, inl, inr, refl, sym, ◌∙◌, ap, true, false, some, ==_self, ==_ne,
  session_already_exists, Bool-cases, Option-cases, ok, err,
}
use rust_pinecone.Prelude.Maps
use rust_pinecone.Prelude.Maps.{HashMap, nat_eq, get, insert, remove, get-insert, get-remove}
use rust_pinecone.Tree.{PublicKey}
use rust_pinecone.Frames.{Frame, SnekPacket, snek_routed, tree_routed}
use rust_pinecone.Channel.{Channel, Mpsc, Sent, accepted, full, closed}
use rust_pinecone.Session.{ChannelId, Session}
use rust_pinecone.Client.{
  Client, set_channel, add_channel, offer, offer_result, open_session, forward, forward_result,
  handle_download, dial,
}
use rust_pinecone.Client.Separate.{
  AreSeparate, insert-IsSeparate, remove-IsSeparate, same_sender, has_channel_ne,
}

-- The senders stay separate, and the session of every other key keeps its channel, and what is in it.
abbrev Apart : PublicKey → Client → Client → Type 0
Apart k c c' =
    AreSeparate c'
    × ((j : PublicKey) (id : ChannelId)
        → j ≢ k
        → get c.session_senders j ≡ some id
        → (get c'.session_senders j ≡ some id) × (get c'.channels id ≡ get c.channels id))

Apart-same : (k : PublicKey) (c : Client) → AreSeparate c → Apart k c c
Apart-same k c s = (s, λ j id n h. (h, refl))

module _ (frames : Mpsc Frame) (sessions : Mpsc Session) where
  forward_result-Apart :
      (r : Sent × Channel Frame) (id : ChannelId) (packet : SnekPacket) (c : Client)
      → AreSeparate c
      → get c.session_senders packet.source_key ≡ some id
      → Apart packet.source_key c (forward_result frames sessions r id packet c).1
  unfolding forward_result set_channel
  forward_result-Apart (accepted, ch) id packet c s own = (
    s,
    λ j i n h. (
      h,
      get-insert c.channels id i ch
          ∙ rw (
              ==_ne id i (λ e. n (
                same_sender c.session_senders c.next_channel j packet.source_key i s h
                  (own ∙ ap some e)))),
    ),
  )
  forward_result-Apart (full, ch) id packet c s own = Apart-same packet.source_key c s
  forward_result-Apart (closed, ch) id packet c s own = (
    remove-IsSeparate c.session_senders packet.source_key c.next_channel s,
    λ j i n h. (
      get-remove c.session_senders packet.source_key j
          ∙ rw (==_ne packet.source_key j (λ e. n (sym e))) h,
      refl,
    ),
  )

  forward-Apart :
      (id : ChannelId) (packet : SnekPacket) (c : Client)
      → AreSeparate c
      → get c.session_senders packet.source_key ≡ some id
      → Apart packet.source_key c (forward frames sessions id packet c).1
  unfolding forward
  forward-Apart id packet c s own = elim (Option-cases (get c.channels id)) [
    | inl e ↦ rw (e, forward) (Apart-same packet.source_key c s)
    | inr (ch, e) ↦
        rw (e, forward)
          (forward_result-Apart (frames.send (snek_routed packet) ch) id packet c s own)
  ]

  -- The session of the channel that was just added.
  offer_result-Apart :
      (r : Sent × Channel Session) (t : Session) (k : PublicKey) (c d : Client)
      → Apart k c d
      → ((j : PublicKey) (id : ChannelId)
          → j ≢ k
          → get c.session_senders j ≡ some id
          → t.download ≢ id)
      → Apart k c (offer_result frames sessions r t d).1
  unfolding offer_result set_channel
  offer_result-Apart (accepted, incoming) t k c d a new = a
  offer_result-Apart (full, incoming) t k c d a new = a
  offer_result-Apart (closed, incoming) t k c d a new =
      elim (Option-cases (get d.channels t.download)) [
        | inl e ↦ rw (e, offer_result) a
        | inr (ch, e) ↦
            rw (e, offer_result)
              (
                a.0,
                λ j id n h. (
                  (a.1 j id n h).0,
                  get-insert d.channels t.download id (frames.drop_receiver ch)
                      ∙ rw (==_ne t.download id (new j id n h)) (a.1 j id n h).1,
                ),
              )
      ]

  open_session-Apart :
      (packet : SnekPacket) (c : Client)
      → AreSeparate c
      → Apart packet.source_key c (open_session frames sessions packet c).1
  unfolding open_session offer add_channel set_channel
  open_session-Apart packet c s =
      offer_result-Apart _ _ packet.source_key c _
        (
          insert-IsSeparate c.session_senders packet.source_key c.next_channel s,
          λ j id n h. (
            get-insert c.session_senders packet.source_key j c.next_channel
                ∙ rw (==_ne packet.source_key j (λ e. n (sym e))) h,
            get-insert c.channels c.next_channel id _
                ∙ rw (
                    ==_ne c.next_channel id
                      (has_channel_ne c.session_senders c.next_channel j id s h)),
          ),
        )
        (λ j id n h. has_channel_ne c.session_senders c.next_channel j id s h)

  handle_download-Apart :
      (packet : SnekPacket) (c : Client)
      → AreSeparate c
      → Apart packet.source_key c (handle_download frames sessions (snek_routed packet) c).1
  unfolding handle_download
  handle_download-Apart packet c s = elim (Option-cases (get c.session_senders packet.source_key)) [
    | inl e ↦ rw (e, handle_download) (open_session-Apart packet c s)
    | inr (id, e) ↦ rw (e, handle_download) (forward-Apart id packet c s e)
  ]

  -- If the sessions of a client are on different channels, all below the next new one, then so
  -- they are after a round of its download loop, whatever frame it is given.
  pub handle_download-AreSeparate :
      (frame : Frame) (c : Client)
      → AreSeparate c
      → AreSeparate (handle_download frames sessions frame c).1
  unfolding handle_download
  handle_download-AreSeparate (snek_routed packet) c s = (handle_download-Apart packet c s).0
  handle_download-AreSeparate (tree_routed packet) c s = s
  handle_download-AreSeparate frame c s = s

  -- At a client whose sessions are on different channels, a packet leaves the session of every
  -- other node than its source on its channel, and that channel as it was.
  pub handle_download_isolates :
      (packet : SnekPacket) (c : Client) (j : PublicKey) (id : ChannelId)
      → AreSeparate c
      → j ≢ packet.source_key
      → get c.session_senders j ≡ some id
      → (get (handle_download frames sessions (snek_routed packet) c).1.session_senders j ≡ some id)
        × (get (handle_download frames sessions (snek_routed packet) c).1.channels id
            ≡ get c.channels id)
  handle_download_isolates packet c j id s n h = (handle_download-Apart packet c s).1 j id n h

  -- If the sessions of a client are on different channels, all below the next new one, then so
  -- they are after `dial`, which either fails with the client unchanged, where the key has a
  -- session, or returns a session for the key, on a new channel on which the client sends it what
  -- comes from this key.
  pub dial-AreSeparate :
      (key : PublicKey) (c : Client)
      → AreSeparate c
      → AreSeparate (dial frames sessions key c).1
        × ((Maps.contains_key c.session_senders key ≡ true)
              × (dial frames sessions key c ≡ (err session_already_exists, c))
            ⊎ ((t : Session) × (Maps.contains_key c.session_senders key ≡ false)
                × ((dial frames sessions key c).0 ≡ ok t)
                × (t.dialed_key ≡ key)
                × (get (dial frames sessions key c).1.session_senders key ≡ some t.download)
                × (get (dial frames sessions key c).1.channels t.download
                    ≡ some (frames.channel 100))))
  unfolding dial add_channel set_channel
  dial-AreSeparate key c s = elim (Bool-cases (Maps.contains_key c.session_senders key)) [
    | inl known ↦ rw (known, dial) (s, inl (refl, refl))
    | inr new ↦
        rw (new, dial)
          (
            insert-IsSeparate c.session_senders key c.next_channel s,
            inr (
              record { router_key = c.router_key; dialed_key = key; download = c.next_channel },
              refl,
              refl,
              refl,
              get-insert c.session_senders key key c.next_channel ∙ rw (==_self key),
              get-insert c.channels c.next_channel c.next_channel (frames.channel 100)
                  ∙ rw (==_self c.next_channel),
            ),
          )
  ]
