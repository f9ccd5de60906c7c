-- ===== src/Router/Tracks/Peers.antt =====
-- `handle_frame`, `connect`, `poll_peer` of src/router.rs: which paths they leave.
use rust_pinecone.Prelude.{
  Bool, true, false, ◌==◌, if◌then◌else◌, Option, none, some, Option-cases, last?, Reply, ok, err,
  panic, M, and_then, inl, inr, connection_closed, RouterError,
}
use rust_pinecone.Prelude.Maps.{nat_eq, insert, contains_key}
use rust_pinecone.Tree.{PublicKey, Port}
use rust_pinecone.Frames.{
  Frame, TreeAnnouncement, SnekSetup, SnekBootstrap, SnekBootstrapAck, tree_routed, snek_routed,
  tree_announcement, snek_bootstrap, snek_bootstrap_ack, snek_setup, snek_setup_ack, snek_teardown,
}
use rust_pinecone.Router.State.{Router, World, for_peer, wait_for, send, send_to_local}
use rust_pinecone.Router.Ports.{port}
use rust_pinecone.Router.Ports.Fresh.{get_new_port_total}
use rust_pinecone.Router.TreeHop.{next_tree_hop}
use rust_pinecone.Router.SnekHop.{next_snek_hop}
use rust_pinecone.Router.Bootstrap.{handle_bootstrap, handle_bootstrap_ack}
use rust_pinecone.Router.Setup.{handle_setup, handle_setup_ack}
use rust_pinecone.Router.Teardown.{handle_teardown}
use rust_pinecone.Router.HandleFrame.{
  on_port, on_known_hop, route, handle_snek_setup, handle_frame, add_peer, first_announcement,
  first_frame, connect, poll_peer, polled_peer,
}
use rust_pinecone.Router.Tracks.{
  Tracks, and_then-IsTracked, if-IsTracked, on_hop-Tracks, on_known_hop-Tracks, on_port-Tracks,
  send-Tracks, send_tree_announcement-Tracks,
}
use rust_pinecone.Router.Tracks.Tree.{handle_tree_announcement-Tracks}
use rust_pinecone.Router.Tracks.Paths.{handle_teardown-Tracks}
use rust_pinecone.Router.Tracks.Handlers.{handle_bootstrap-Tracks, handle_bootstrap_ack-Tracks}
use rust_pinecone.Router.Tracks.Setups.{handle_setup-Tracks, handle_setup_ack-Tracks}

module _ (w : World) where
  send_to_local-Tracks : (f : Frame) → Tracks (send_to_local w f)
  unfolding send_to_local
  send_to_local-Tracks f r v = if-IsTracked w.client_open _ _ v v

  route-Tracks : (f : Frame) (peer : PublicKey) → Tracks (route w f peer)
  unfolding route
  route-Tracks f peer r v =
      if-IsTracked (peer == r.public_key) _ _ (send_to_local-Tracks f r v)
        (send-Tracks w f peer r v)

  abbrev setup_over : SnekSetup → Port → PublicKey → M Router (Unit {0})
  setup_over setup p hop t = on_port (port t hop) (λ q u. handle_setup w p setup q u) t

  handle_snek_setup-Tracks :
      (setup : SnekSetup) (from : PublicKey) → Tracks (handle_snek_setup w setup from)
  unfolding handle_snek_setup
  handle_snek_setup-Tracks setup from r v =
      on_port-Tracks (port r from)
        (λ p s. on_known_hop (next_tree_hop w s setup.destination from) (setup_over setup p) s)
        (λ p s.
          on_known_hop-Tracks (next_tree_hop w s setup.destination from) (setup_over setup p)
            (λ hop t.
              on_port-Tracks (port t hop) (λ q u. handle_setup w p setup q u)
                (λ q. handle_setup-Tracks w p setup q) t)
            s)
        r v

  bootstrap_hop-Tracks :
      (bootstrap : SnekBootstrap) (hop : PublicKey)
      → Tracks (λ s.
        if hop == s.public_key
        then handle_bootstrap w bootstrap s
        else send w (snek_bootstrap bootstrap) hop s)
  bootstrap_hop-Tracks bootstrap hop s u =
      if-IsTracked (hop == s.public_key) (handle_bootstrap w bootstrap s)
        (send w (snek_bootstrap bootstrap) hop s) (handle_bootstrap-Tracks w bootstrap s u)
        (send-Tracks w (snek_bootstrap bootstrap) hop s u)

  ack_hop-Tracks :
      (ack : SnekBootstrapAck) (hop : PublicKey)
      → Tracks (λ s.
        if hop == s.public_key
        then handle_bootstrap_ack w ack s
        else send w (snek_bootstrap_ack ack) hop s)
  ack_hop-Tracks ack hop s u =
      if-IsTracked (hop == s.public_key) (handle_bootstrap_ack w ack s)
        (send w (snek_bootstrap_ack ack) hop s) (handle_bootstrap_ack-Tracks w ack s u)
        (send-Tracks w (snek_bootstrap_ack ack) hop s u)

  pub handle_frame-Tracks : (f : Frame) (from : PublicKey) → Tracks (handle_frame w f from)
  unfolding handle_frame
  handle_frame-Tracks (tree_routed packet) from r v =
      on_hop-Tracks (next_tree_hop w r packet.destination_coordinates from)
        (route w (tree_routed packet)) (route-Tracks (tree_routed packet)) r v
  handle_frame-Tracks (snek_routed packet) from r v =
      on_hop-Tracks (next_snek_hop packet.destination_key false w r true)
        (route w (snek_routed packet)) (route-Tracks (snek_routed packet)) r v
  handle_frame-Tracks (tree_announcement a) from r v = handle_tree_announcement-Tracks w a from r v
  handle_frame-Tracks (snek_bootstrap bootstrap) from r v =
      on_known_hop-Tracks (next_snek_hop bootstrap.destination_key true w r false) _
        (bootstrap_hop-Tracks bootstrap) r v
  handle_frame-Tracks (snek_bootstrap_ack ack) from r v =
      on_hop-Tracks (next_tree_hop w r ack.destination_coordinates from) _ (ack_hop-Tracks ack) r v
  handle_frame-Tracks (snek_setup setup) from r v = handle_snek_setup-Tracks setup from r v
  handle_frame-Tracks (snek_setup_ack ack) from r v =
      on_port-Tracks (port r from) (λ p s. handle_setup_ack w p ack s)
        (λ p. handle_setup_ack-Tracks w p ack) r v
  handle_frame-Tracks (snek_teardown teardown) from r v =
      on_port-Tracks (port r from) (λ p s. handle_teardown w p teardown s)
        (λ p. handle_teardown-Tracks w p teardown) r v

  add_peer-Tracks : (peer : PublicKey) (p : Port) (first : Bool) → Tracks (add_peer w peer p first)
  unfolding add_peer
  add_peer-Tracks peer p first r v = if-IsTracked (contains_key r.download_connections peer) _ _ v (
      if-IsTracked (contains_key r.upload_connections peer) _ _ v
        (if-IsTracked first _ _ (send_tree_announcement-Tracks w _ peer _ v) v))

  first_announcement-Tracks : (p : Port) (a : TreeAnnouncement) → Tracks (first_announcement w p a)
  unfolding first_announcement
  first_announcement-Tracks p a r v = elim (Option-cases (last? a.signatures)) [
    | inl e ↦ rw (e, first_announcement) v
    | inr (s, e) ↦
        let key = s.signing_public_key in
        let t = record r { ports = insert r.ports p (some key) } in
        rw (e, first_announcement)
          (and_then-IsTracked (add_peer w key p false t)
            (λ _ u. and_then (handle_frame w (tree_announcement a) key u) (λ _ x. (ok key, x)))
            (add_peer-Tracks key p false t v)
            (λ _ u y.
              and_then-IsTracked (handle_frame w (tree_announcement a) key u) (λ _ x. (ok key, x))
                (handle_frame-Tracks (tree_announcement a) key u y) (λ _ x z. z)))
  ]

  first_frame-Tracks : (p : Port) (reply : Option (Reply Frame)) → Tracks (first_frame w p reply)
  unfolding first_frame
  first_frame-Tracks p none r v = v
  first_frame-Tracks p (some (ok (tree_announcement a))) r v = first_announcement-Tracks p a r v
  first_frame-Tracks p (some (ok frame)) r v = v
  first_frame-Tracks p (some (err e)) r v = v
  first_frame-Tracks p (some panic) r v = v

  answered-Tracks :
      (p : Port) (x : Option RouterError) (reply : Option (Reply Frame))
      → Tracks (λ r. elim x as (λ _. Reply PublicKey × Router) [
        | some e ↦ (err e, r)
        | none ↦ first_frame w p reply r
      ])
  answered-Tracks p none reply r v = first_frame-Tracks p reply r v
  answered-Tracks p (some e) reply r v = v

  pub connect-Tracks :
      (sink : Frame → Option RouterError) (reply : Option (Reply Frame))
      → Tracks (connect w sink reply)
  unfolding connect
  connect-Tracks sink reply r v =
      let (p, e, lo, free, below) = get_new_port_total r in
      rw (e, connect) (answered-Tracks p _ reply (record r { ports = insert r.ports p none }) v)

  pub poll_peer-Tracks : (peer : PublicKey) → Tracks (poll_peer peer)
  unfolding poll_peer wait_for
  poll_peer-Tracks peer r v =
      if-IsTracked (contains_key r.download_connections peer) (wait_for (for_peer peer) r)
        (err connection_closed, r) v v

  pub polled_peer-Tracks :
      (peer : PublicKey) (received : Option (Reply Frame)) → Tracks (polled_peer w peer received)
  unfolding polled_peer
  polled_peer-Tracks peer none r v = v
  polled_peer-Tracks peer (some (ok frame)) r v = handle_frame-Tracks frame peer r v
  polled_peer-Tracks peer (some (err e)) r v = v
  polled_peer-Tracks peer (some panic) r v = v
