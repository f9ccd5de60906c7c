-- ===== src/Examples/Sessions.antt =====
-- The theorems on the client and its sessions, on concrete values.
use rust_pinecone.Prelude.{
  arith, refl, false, ◌≡◌, List, [], ◌∷◌, map, true, some, ok, ◌⊎◌, err, session_already_exists, ℕ,
}
use rust_pinecone.Prelude.Maps
use rust_pinecone.Prelude.Maps.{nat_eq, get, insert, remove, contains_key}
use rust_pinecone.Frames.{Frame, SnekPacket, snek_routed}
use rust_pinecone.Channel.{Channel, fresh, fifo, fifo-IsFifo}
use rust_pinecone.Session.{poll_read, failed, out_of_memory}
use rust_pinecone.Channel.{ready}
use rust_pinecone.Client.Reopen.{handle_download_reopens}
use rust_pinecone.Session.{Session, ReadBuf, poll_write, write_packet}
use rust_pinecone.Session.Transfer.{packet_of, write_all, read_all, poll_read_skips}
use rust_pinecone.Client.{
  Client, through, handle_download, forward, forward_result, open_session, offer, offer_result,
  dial, add_channel, set_channel,
}
use rust_pinecone.Client.Separate.{has_channel, AreSeparate}
use rust_pinecone.Client.Reads.{dispatch_all-read_all}
use rust_pinecone.Client.Dispatch.{handle_download_isolates, dial-AreSeparate}
use rust_pinecone.Client.Streams.{
  from_source, comes_from, dispatch_all, Dispatched, dispatch_all-Dispatched,
}
use rust_pinecone.Examples.{router}

-- The client of the router 5, with sessions with the nodes 9 and 4.
abbrev client : Client
client = record {
  router_key = 5;
  router = router;
  upload = fresh 100;
  session_senders = (9, 0) ∷ (4, 1) ∷ [];
  channels = (0, fresh 2) ∷ (1, fresh 100) ∷ [];
  next_channel = 2;
  new_incoming = fresh 100;
}

client-AreSeparate : AreSeparate client
unfolding has_channel
client-AreSeparate = (omega arith, refl, (omega arith, refl, tt))

-- The node 9's session with this client, and what it writes.
abbrev remote : Session
remote = record { router_key = 9; dialed_key = 5; download = 0 }

abbrev writes : List (List ℕ)
writes = (1 ∷ 2 ∷ []) ∷ (3 ∷ []) ∷ []

abbrev other_packet : SnekPacket
other_packet = record { destination_key = 5; source_key = 7; payload = 8 ∷ [] }

abbrev arrivals : List Frame
arrivals = packet_of remote (1 ∷ 2 ∷ []) ∷ snek_routed other_packet ∷ packet_of remote (3 ∷ []) ∷ []

abbrev buffer : ReadBuf
buffer = record { filled = 0 ∷ []; capacity = 4 }

client_sender : get client.session_senders 9 ≡ some 0
unfolding get
client_sender = refl

client_channel : get client.channels 0 ≡ some (fresh 2)
unfolding get
client_channel = refl

arrivals_same : from_source 9 arrivals ≡ (write_all fifo remote writes (fresh 100)).queue
unfolding from_source comes_from write_all poll_write write_packet
arrivals_same = refl

arrivals_through : (dispatch_all fifo fifo arrivals client).0 ≡ through
unfolding dispatch_all handle_download forward forward_result open_session offer offer_result
    add_channel set_channel get insert
arrivals_through = refl

two_from : from_source 9 arrivals ≡ map (packet_of remote) writes
unfolding from_source comes_from
two_from = refl

dispatch_all-Dispatched_example :
    Dispatched fifo-IsFifo fifo 9 0 (fresh 2) [] arrivals (dispatch_all fifo fifo arrivals client)
dispatch_all-Dispatched_example =
    dispatch_all-Dispatched fifo-IsFifo fifo 9 0 (fresh 2) arrivals [] client refl
      (rw two_from (omega arith)) (client-AreSeparate, client_sender, client_channel)

dispatch_all-read_all_example :
    (d : Channel Frame) × (get (dispatch_all fifo fifo arrivals client).2.channels 0 ≡ some d)
    × (read_all fifo 2 buffer d
        ≡ (record { filled = 0 ∷ 1 ∷ 2 ∷ 3 ∷ []; capacity = 4 }, record d { queue = [] }))
dispatch_all-read_all_example =
    dispatch_all-read_all fifo-IsFifo fifo remote writes (fresh 100) arrivals client 0 (fresh 2)
      buffer refl refl (omega arith) arrivals_same client-AreSeparate client_sender client_channel
      refl (omega arith) (omega arith) arrivals_through

handle_download_isolates_example :
    (get (handle_download fifo fifo (snek_routed other_packet) client).1.session_senders 9 ≡ some 0)
    × (get (handle_download fifo fifo (snek_routed other_packet) client).1.channels 0
        ≡ get client.channels 0)
handle_download_isolates_example =
    handle_download_isolates fifo fifo other_packet client 9 0 client-AreSeparate
      (λ e. absurd (omega arith)) client_sender

dial-AreSeparate_example :
    AreSeparate (dial fifo fifo 8 client).1
    × ((Maps.contains_key client.session_senders 8 ≡ true)
          × (dial fifo fifo 8 client ≡ (err session_already_exists, client))
        ⊎ ((t : Session) × (Maps.contains_key client.session_senders 8 ≡ false)
            × ((dial fifo fifo 8 client).0 ≡ ok t)
            × (t.dialed_key ≡ 8)
            × (get (dial fifo fifo 8 client).1.session_senders 8 ≡ some t.download)
            × (get (dial fifo fifo 8 client).1.channels t.download ≡ some (fresh 100))))
dial-AreSeparate_example = dial-AreSeparate fifo fifo 8 client client-AreSeparate

-- The same client, where the session with the node 9 was dropped.
abbrev dropped_client : Client
dropped_client = record client {
  channels = (0, record (fresh 2) { receiving = false }) ∷ (1, fresh 100) ∷ [];
}

abbrev first_packet : SnekPacket
first_packet = record { destination_key = 5; source_key = 9; payload = 1 ∷ [] }

abbrev second_packet : SnekPacket
second_packet = record { destination_key = 5; source_key = 9; payload = 2 ∷ [] }

dropped_channel : get dropped_client.channels 0 ≡ some (record (fresh 2) { receiving = false })
unfolding get
dropped_channel = refl

handle_download_reopens_example :
    (handle_download fifo fifo (snek_routed first_packet) dropped_client).1
      ≡ record dropped_client { session_senders = remove dropped_client.session_senders 9 }
    × (get
          (handle_download fifo fifo
            (snek_routed second_packet)
            (handle_download fifo fifo
              (snek_routed first_packet)
              dropped_client).1).1.session_senders
          9
        ≡ some 2)
    × (get
          (handle_download fifo fifo
            (snek_routed second_packet)
            (handle_download fifo fifo (snek_routed first_packet) dropped_client).1).1.channels
          2
        ≡ some (record (fresh 100) { queue = snek_routed second_packet ∷ [] }))
handle_download_reopens_example =
    handle_download_reopens fifo-IsFifo fifo-IsFifo first_packet second_packet dropped_client 0
      (record (fresh 2) { receiving = false }) refl client_sender dropped_channel refl refl
      (omega arith)

poll_read_skips_example :
    (poll_read fifo buffer (record (fresh 2) {
      queue = packet_of remote (1 ∷ 2 ∷ 3 ∷ 4 ∷ []) ∷ packet_of remote (5 ∷ []) ∷ [];
    })).0
      ≡ ready (failed out_of_memory "Buffer not large enough")
    × (read_all fifo 2 buffer (record (fresh 2) {
      queue = packet_of remote (1 ∷ 2 ∷ 3 ∷ 4 ∷ []) ∷ packet_of remote (5 ∷ []) ∷ [];
    })
        ≡ (record buffer { filled = 0 ∷ 5 ∷ [] }, fresh 2))
poll_read_skips_example =
    poll_read_skips fifo-IsFifo remote (1 ∷ 2 ∷ 3 ∷ 4 ∷ []) (5 ∷ []) buffer (fresh 2) []
      (omega arith) (omega arith)
