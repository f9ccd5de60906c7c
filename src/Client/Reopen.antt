-- ===== src/Client/Reopen.antt =====
-- The download loop of `Client::new` of src/client.rs, at a session that was dropped.
use rust_pinecone.Prelude.{
  ◌≡◌, refl, ◌∙◌, false, true, [], ◌∷◌, none, some, ==_self, length, lt→ltb, ◌<◌,
}
use rust_pinecone.Prelude.Maps.{nat_eq, get, remove, get-insert, get-remove}
use rust_pinecone.Frames.{Frame, SnekPacket, snek_routed}
use rust_pinecone.Channel.{Channel, Mpsc, IsFifo, fresh}
use rust_pinecone.Session.{ChannelId, Session}
use rust_pinecone.Client.{
  Client, handle_download, forward, forward_result, open_session, offer, offer_result, add_channel,
  set_channel,
}

module _ {frames : Mpsc Frame} (laws : IsFifo frames) {sessions : Mpsc Session}
    (session_laws : IsFifo sessions) where
  closed_lem :
      (packet : SnekPacket) (c : Client) (id : ChannelId) (ch : Channel Frame)
      → get c.session_senders packet.source_key ≡ some id
      → get c.channels id ≡ some ch
      → ch.receiving ≡ false
      → (handle_download frames sessions (snek_routed packet) c).1
        ≡ record c { session_senders = remove c.session_senders packet.source_key }
  unfolding handle_download forward forward_result
  closed_lem packet c id ch own at gone =
      rw (own, at, laws.send_lem, gone, handle_download, forward) refl

  reopened :
      (packet : SnekPacket) (c : Client)
      → get c.session_senders packet.source_key ≡ none
      → c.new_incoming.receiving ≡ true
      → length c.new_incoming.queue < c.new_incoming.capacity
      → (get
            (handle_download frames sessions (snek_routed packet) c).1.session_senders
            packet.source_key
          ≡ some c.next_channel)
        × (get (handle_download frames sessions (snek_routed packet) c).1.channels c.next_channel
            ≡ some (record (fresh 100) { queue = snek_routed packet ∷ [] }))
  unfolding handle_download open_session offer offer_result add_channel set_channel
  reopened packet c new open_end room =
      rw
        (
          new,
          session_laws.send_lem,
          laws.channel_lem,
          laws.send_lem,
          open_end,
          lt→ltb _ _ room,
          handle_download,
        )
        (
          get-insert c.session_senders packet.source_key packet.source_key c.next_channel
              ∙ rw (==_self packet.source_key) refl,
          get-insert c.channels c.next_channel c.next_channel _ ∙ rw (==_self c.next_channel) refl,
        )

  -- With channels that keep tokio's contract, and room for a new session: where a source has a
  -- session that was dropped, the first of two packets of it only removes the sender, and is put
  -- nowhere; the second opens a new session, whose channel holds this packet alone.
  pub handle_download_reopens :
      (lost kept : SnekPacket) (c : Client) (id : ChannelId) (ch : Channel Frame)
      → lost.source_key ≡ kept.source_key
      → get c.session_senders lost.source_key ≡ some id
      → get c.channels id ≡ some ch
      → ch.receiving ≡ false
      → c.new_incoming.receiving ≡ true
      → length c.new_incoming.queue < c.new_incoming.capacity
      → (handle_download frames sessions (snek_routed lost) c).1
          ≡ record c { session_senders = remove c.session_senders lost.source_key }
        × (get
              (handle_download frames sessions
                (snek_routed kept)
                (handle_download frames sessions (snek_routed lost) c).1).1.session_senders
              kept.source_key
            ≡ some c.next_channel)
        × (get
              (handle_download frames sessions
                (snek_routed kept)
                (handle_download frames sessions (snek_routed lost) c).1).1.channels
              c.next_channel
            ≡ some (record (fresh 100) { queue = snek_routed kept ∷ [] }))
  handle_download_reopens lost kept c id ch same own at gone open_end room =
      let first = closed_lem lost c id ch own at gone in
      let absent : get (remove c.session_senders lost.source_key) kept.source_key ≡ none =
        get-remove c.session_senders lost.source_key kept.source_key
        ∙ rw (same, ==_self kept.source_key) refl in
      let again =
        reopened kept (record c { session_senders = remove c.session_senders lost.source_key })
          absent open_end room in
      (first, rw first again.0, rw first again.1)
