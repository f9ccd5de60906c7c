-- ===== src/Client.antt =====
-- src/client.rs: the router together with the sessions that run over it.
pub mod Separate
pub mod Dispatch
pub mod Streams
pub mod Reads
pub mod Reopen
use rust_pinecone.Prelude.{
  ℕ, suc, ◌+◌, ◌≡◌, Bool, true, false, List, [], ◌∷◌, Option, none, some, if◌then◌else◌, Reply, ok,
  err, panic, M, RouterError, session_already_exists,
}
use rust_pinecone.Prelude.Maps
use rust_pinecone.Prelude.Maps.{HashMap, nat_eq}
use rust_pinecone.Tree.{PublicKey}
use rust_pinecone.Frames.{Frame, SnekPacket, snek_routed}
use rust_pinecone.Frames.Announcement.{Ed25519, SigningKey}
use rust_pinecone.Channel.{Channel, Sent, accepted, full, closed, Mpsc}
use rust_pinecone.Session.{ChannelId, Session, SendSession}
use rust_pinecone.Router.State.{Router, World, new_router}
use rust_pinecone.Router.Maintenance
use rust_pinecone.Router.HandleFrame

-- The channels to sessions stand in a store, where a sender in `session_senders` and the receiver in
-- a `Session` name the same one.
pub record Client : Type 0 where
  pub router_key : PublicKey
  pub router : Router
  pub upload : Channel Frame
  pub session_senders : HashMap PublicKey ChannelId
  pub channels : HashMap ChannelId (Channel Frame)
  pub next_channel : ChannelId
  pub new_incoming : Channel Session

-- How a round of the download loop ends: it is through, or it waits to send the frame on, or waits
-- to hand out a session.
pub data Round : Type 0 where
  through : Round
  waits_with_frame : Frame → Round
  waits_with_session : Session → Round

unfoldable pub set_channel : ChannelId → Channel Frame → Client → Client
set_channel id ch c = record c { channels = Maps.insert c.channels id ch }

-- A new channel in the store, of which the caller takes the two ends.
unfoldable pub add_channel : Channel Frame → Client → ChannelId × Client
unfolding set_channel
add_channel ch c =
    (c.next_channel, record (set_channel c.next_channel ch c) { next_channel = suc c.next_channel })

module _ (frames : Mpsc Frame) (sessions : Mpsc Session) where
  -- `Client::new`, with the router that it starts.
  unfoldable pub new_client : Ed25519 → SigningKey → Client
  new_client crypto key = record {
    router_key = crypto.verification_key key;
    router = record (new_router crypto key) { running = true };
    upload = frames.channel 100;
    session_senders = [];
    channels = [];
    next_channel = 0;
    new_incoming = sessions.channel 100;
  }

  -- A session whose `send` failed is dropped with the error, and its receiver with it.
  unfoldable pub offer_result : Sent × Channel Session → Session → Client → Round × Client
  unfolding set_channel
  offer_result (accepted, incoming) s c = (through, record c { new_incoming = incoming })
  offer_result (full, incoming) s c = (waits_with_session s, record c { new_incoming = incoming })
  offer_result (closed, incoming) s c = elim (Maps.get c.channels s.download) [
    | none ↦ (through, record c { new_incoming = incoming })
    | some ch ↦ (
      through,
      set_channel s.download (frames.drop_receiver ch) (record c { new_incoming = incoming }),
    )
  ]

  unfoldable pub offer : Session → Client → Round × Client
  offer s c = offer_result (sessions.send s c.new_incoming) s c

  -- The source has no session: a new one, which holds the frame already.
  unfoldable pub open_session : SnekPacket → Client → Round × Client
  open_session packet c =
      let (_sent, ch) = frames.send (snek_routed packet) (frames.channel 100) in
      let (id, c') = add_channel ch c in
      offer (record { router_key = c.router_key; dialed_key = packet.source_key; download = id })
        (record c' { session_senders = Maps.insert c'.session_senders packet.source_key id })

  -- The source has a session. A sender whose session is gone is removed.
  unfoldable pub forward_result :
      Sent × Channel Frame → ChannelId → SnekPacket → Client → Round × Client
  forward_result (accepted, ch) id packet c = (through, set_channel id ch c)
  forward_result (full, ch) id packet c = (waits_with_frame (snek_routed packet), c)
  forward_result (closed, ch) id packet c =
      (through, record c { session_senders = Maps.remove c.session_senders packet.source_key })

  unfoldable pub forward : ChannelId → SnekPacket → Client → Round × Client
  forward id packet c = elim (Maps.get c.channels id) [
    | none ↦ (through, c)
    | some ch ↦ forward_result (frames.send (snek_routed packet) ch) id packet c
  ]

  -- One round of the download loop, on a frame that the router delivered.
  unfoldable pub handle_download : Frame → Client → Round × Client
  handle_download (snek_routed packet) c = elim (Maps.get c.session_senders packet.source_key) [
    | some id ↦ forward id packet c
    | none ↦ open_session packet c
  ]
  handle_download frame c = (through, c)

  -- A round that waited goes on.
  unfoldable pub resume : Round → Client → Round × Client
  resume through c = (through, c)
  resume (waits_with_frame frame) c = handle_download frame c
  resume (waits_with_session s) c = offer s c

  unfoldable pub dial_send : PublicKey → Client → SendSession
  dial_send key c = record { router_key = c.router_key; dialed_key = key }

  unfoldable pub dial : PublicKey → M Client Session
  dial key c =
      if Maps.contains_key c.session_senders key
      then (err session_already_exists, c)
      else (let (id, c') = add_channel (frames.channel 100) c in
          (
            ok (record { router_key = c.router_key; dialed_key = key; download = id }),
            record c' { session_senders = Maps.insert c'.session_senders key id },
          ))

-- What the router does inside its client.
abbrev pub on_router : {A : Type 0} → M Router A → M Client A
on_router m c = let (x, r) = m c.router in (x, record c { router = r })

module _ (w : World) where
  unfoldable pub stop : M Client (Unit {0})
  stop = on_router (Maintenance.stop w)

  unfoldable pub connect_peer :
      (Frame → Option RouterError) → Option (Reply Frame) → M Client PublicKey
  connect_peer sink reply = on_router (HandleFrame.connect w sink reply)

  unfoldable pub disconnect_peer : PublicKey → M Client (Unit {0})
  disconnect_peer key = on_router (Maintenance.disconnect_peer w key)
