-- ===== src/Router/HandleFrame.antt =====
-- src/router.rs, `handle_frame`, `connect`, `add_peer` and `poll_peer`: what the router does with
-- the frames and the peers that come.
pub mod Refused
use rust_pinecone.Prelude.{
  Bool, true, false, Option, none, some, ◌==◌, if◌then◌else◌, last?, Reply, ok, err, panic, M,
  and_then, connection_closed, missing_signature, invalid_frame, RouterError,
}
use rust_pinecone.Prelude.Maps
use rust_pinecone.Prelude.Maps.{HashMap, nat_eq}
use rust_pinecone.Tree.{PublicKey, Port}
use rust_pinecone.Frames.{
  Frame, TreeAnnouncement, SnekSetup, tree_routed, snek_routed, tree_announcement, snek_bootstrap,
  snek_bootstrap_ack, snek_setup, snek_setup_ack, snek_teardown,
}
use rust_pinecone.Frames.Announcement.{append_signature}
use rust_pinecone.Router.State.{Router, World, for_peer, wait_for, send, send_to_local}
use rust_pinecone.Router.Ports.{port, get_new_port}
use rust_pinecone.Router.Announce.{current_announcement, send_tree_announcement}
use rust_pinecone.Router.TreeHop.{next_tree_hop}
use rust_pinecone.Router.SnekHop.{next_snek_hop}
use rust_pinecone.Router.HandleAnnouncement.{handle_tree_announcement}
use rust_pinecone.Router.Teardown.{handle_teardown}
use rust_pinecone.Router.Bootstrap.{on_hop, handle_bootstrap, handle_bootstrap_ack}
use rust_pinecone.Router.Setup.{handle_setup, handle_setup_ack}

-- `unwrap()` of a port.
abbrev pub on_port : Option Port → (Port → M Router (Unit {0})) → M Router (Unit {0})
on_port none f r = (panic, r)
on_port (some p) f r = f p r

-- `unwrap()` of a hop.
abbrev pub on_known_hop :
    Reply (Option PublicKey) → (PublicKey → M Router (Unit {0})) → M Router (Unit {0})
on_known_hop (ok none) f r = (panic, r)
on_known_hop (ok (some peer)) f r = f peer r
on_known_hop (err e) f r = (err e, r)
on_known_hop panic f r = (panic, r)

-- Up to the `await`, with the connection at hand; from there on the frame may come at any time.
unfoldable pub poll_peer : PublicKey → M Router (Unit {0})
poll_peer peer r =
    if Maps.contains_key r.download_connections peer
    then wait_for (for_peer peer) r
    else (err connection_closed, r)

module _ (w : World) where
  -- To this router's client, or on to the hop.
  unfoldable pub route : Frame → PublicKey → M Router (Unit {0})
  route frame peer r = if peer == r.public_key then send_to_local w frame r else send w frame peer r

  unfoldable pub handle_snek_setup : SnekSetup → PublicKey → M Router (Unit {0})
  handle_snek_setup setup from r =
      on_port (port r from)
        (λ from_port s.
          on_known_hop (next_tree_hop w s setup.destination from)
            (λ next_hop t.
              on_port (port t next_hop) (λ next_port u. handle_setup w from_port setup next_port u)
                t)
            s)
        r

  unfoldable pub handle_frame : Frame → PublicKey → M Router (Unit {0})
  handle_frame (tree_routed packet) from r =
      on_hop (next_tree_hop w r packet.destination_coordinates from) (route (tree_routed packet)) r
  handle_frame (snek_routed packet) from r =
      on_hop (next_snek_hop packet.destination_key false w r true) (route (snek_routed packet)) r
  handle_frame (tree_announcement a) from r = handle_tree_announcement w a from r
  handle_frame (snek_bootstrap bootstrap) from r =
      on_known_hop (next_snek_hop bootstrap.destination_key true w r false)
        (λ next_hop s.
          if next_hop == s.public_key
          then handle_bootstrap w bootstrap s
          else send w (snek_bootstrap bootstrap) next_hop s)
        r
  handle_frame (snek_bootstrap_ack ack) from r =
      on_hop (next_tree_hop w r ack.destination_coordinates from)
        (λ next_hop s.
          if next_hop == s.public_key
          then handle_bootstrap_ack w ack s
          else send w (snek_bootstrap_ack ack) next_hop s)
        r
  handle_frame (snek_setup setup) from r = handle_snek_setup setup from r
  handle_frame (snek_setup_ack ack) from r =
      on_port (port r from) (λ p s. handle_setup_ack w p ack s) r
  handle_frame (snek_teardown teardown) from r =
      on_port (port r from) (λ p s. handle_teardown w p teardown s) r

  -- A peer is added once; the loop that polls it belongs to the schedule.
  unfoldable pub add_peer : PublicKey → Port → Bool → M Router (Unit {0})
  add_peer peer p send_first_announcement r =
      let added = record r {
        upload_connections = Maps.insert r.upload_connections peer tt;
        download_connections = Maps.insert r.download_connections peer tt;
        ports = Maps.insert r.ports p (some peer);
      } in
      if Maps.contains_key r.download_connections peer
      then (ok tt, r)
      else if Maps.contains_key r.upload_connections peer
      then (ok tt, r)
      else if send_first_announcement
      then send_tree_announcement w (current_announcement w added) peer added
      else (ok tt, added)

  unfoldable pub first_announcement : Port → TreeAnnouncement → M Router PublicKey
  first_announcement p a r = elim (last? a.signatures) [
    | none ↦ (err missing_signature, r)
    | some s ↦
        and_then
          (add_peer s.signing_public_key p false
            (record r { ports = Maps.insert r.ports p (some s.signing_public_key) }))
          λ _ t.
            and_then (handle_frame (tree_announcement a) s.signing_public_key t)
              λ _ u. (ok s.signing_public_key, u)
  ]

  -- What the stream of a new connection yields first.
  unfoldable pub first_frame : Port → Option (Reply Frame) → M Router PublicKey
  first_frame p none r = (err connection_closed, r)
  first_frame p (some (ok (tree_announcement a))) r = first_announcement p a r
  first_frame p (some (ok frame)) r = (err invalid_frame, r)
  first_frame p (some (err e)) r = (err e, r)
  first_frame p (some panic) r = (panic, r)

  -- `sent_first` is what the sink answers to the announcement, `reply` what the stream yields then.
  unfoldable pub connect : (Frame → Option RouterError) → Option (Reply Frame) → M Router PublicKey
  connect sink reply r = and_then (get_new_port r) λ p s.
      elim (sink (
        tree_announcement
          (append_signature w.buffers w.crypto (current_announcement w s) s.private_key p))) [
            | some e ↦ (err e, s)
            | none ↦ first_frame p reply s
          ]

  -- From the `await` on: `received` is what the stream yields. A decoding error is logged.
  unfoldable pub polled_peer : PublicKey → Option (Reply Frame) → M Router (Unit {0})
  polled_peer peer none r = (err connection_closed, r)
  polled_peer peer (some (ok frame)) r = handle_frame frame peer r
  polled_peer peer (some (err e)) r = (ok tt, r)
  polled_peer peer (some panic) r = (panic, r)
