-- ===== src/Router/Schedule/Late.antt =====
-- src/router.rs, `poll_peer`: a frame that comes when its peer has been disconnected.
use rust_pinecone.Prelude.{
  ◌≡◌, refl, ap, ◌∙◌, true, false, ◌==◌, [], ◌∷◌, ◌++◌, some, none, ok, panic,
}
use rust_pinecone.Prelude.Maps.{nat_eq, contains_key, remove}
use rust_pinecone.Tree.{PublicKey, Port}
use rust_pinecone.Frames.{
  SnekSetup, SnekSetupAck, SnekTeardown, Frame, snek_setup, snek_setup_ack, snek_teardown,
}
use rust_pinecone.Router.State.{Router, World, for_peer, wait_for}
use rust_pinecone.Router.Ports.{port, find_port}
use rust_pinecone.Router.Maintenance.{drop_over, leave_port, forget_peer, disconnect_peer}
use rust_pinecone.Router.Maintenance.DeadParent.{drop_transit_total}
use rust_pinecone.Router.HandleFrame.{handle_frame, handle_snek_setup, poll_peer, polled_peer}
use rust_pinecone.Router.Keeps.{held}
use rust_pinecone.Router.Keeps.Upkeep.{drop_over-held}
use rust_pinecone.Router.Schedule.Peers.{held-port, after_leaving, after_leaving-held, drop_port}

-- Without its one port, a peer is on none.
single_port :
    (r : Router) (peer : PublicKey) (p : Port)
    → (r.public_key == peer) ≡ false
    → find_port (remove r.ports p) peer ≡ none
    → port (record r { ports = remove r.ports p }) peer ≡ none
unfolding port
single_port r peer p other single = rw other single

forgotten_port :
    (w : World) (u r : Router) (peer : PublicKey) (p : Port)
    → held u ≡ held r
    → port (forget_peer w peer (record u { ports = remove u.ports p })) peer
      ≡ port (record r { ports = remove r.ports p }) peer
unfolding port forget_peer
forgotten_port w u r peer p same = ap (λ x. port (record x { ports = remove x.ports p }) peer) same

-- A peer on one port has none when it has been disconnected.
disconnect_peer-port :
    (w : World) (peer : PublicKey) (r : Router) (p : Port)
    → (r.public_key == peer) ≡ false
    → port r peer ≡ some p
    → find_port (remove r.ports p) peer ≡ none
    → port (disconnect_peer w peer r).1 peer ≡ none
unfolding disconnect_peer leave_port
disconnect_peer-port w peer r p other e single =
    let (s, dropped, c) = drop_transit_total w p r.paths r in
    let t = (drop_over w p s.ascending_path s).1 in
    let u = (drop_over w p t.descending_path t).1 in
    let same : held u ≡ held r =
      drop_over-held w p t.descending_path t ∙ drop_over-held w p s.ascending_path s ∙ ap held c in
    let gone : Router = record u { ports = remove u.ports p } in
    rw (e, disconnect_peer, dropped)
      (held-port (forget_peer w peer gone) (after_leaving w peer (drop_port w p s).0 gone).1 peer
          (after_leaving-held w peer (drop_port w p s).0 gone)
        ∙ forgotten_port w u r peer p same
        ∙ single_port r peer p other single)

-- The three frames whose handlers unwrap the port of the sender.
pub data Unwrapping : Frame → Type 0 where
  on_setup : (s : SnekSetup) → Unwrapping (snek_setup s)
  on_setup_ack : (a : SnekSetupAck) → Unwrapping (snek_setup_ack a)
  on_teardown : (t : SnekTeardown) → Unwrapping (snek_teardown t)

no_port_panics :
    (w : World) (frame : Frame) (peer : PublicKey) (r : Router)
    → Unwrapping frame
    → port r peer ≡ none
    → handle_frame w frame peer r ≡ (panic, r)
unfolding handle_frame handle_snek_setup
no_port_panics w frame peer r (on_setup s) e = rw e refl
no_port_panics w frame peer r (on_setup_ack a) e = rw e refl
no_port_panics w frame peer r (on_teardown t) e = rw e refl

abbrev pub polling : PublicKey → Router → Router
polling peer r = record r { awaited = r.awaited ++ for_peer peer ∷ [] }

-- For a peer other than the router, with a connection and on one port only: `poll_peer` finds the
-- connection and waits for a frame; and when `disconnect_peer` gives the peer up before a setup,
-- a setup acknowledgement or a teardown comes over the connection, then handling this frame
-- panics and changes nothing, since the port of the peer is unwrapped.
pub late_frame_panics :
    (w w' : World) (peer : PublicKey) (r : Router) (p : Port) (frame : Frame)
    → (r.public_key == peer) ≡ false
    → contains_key r.download_connections peer ≡ true
    → port r peer ≡ some p
    → find_port (remove r.ports p) peer ≡ none
    → Unwrapping frame
    → (poll_peer peer r ≡ (ok tt, polling peer r))
      × (polled_peer w' peer (some (ok frame)) (disconnect_peer w peer (polling peer r)).1
          ≡ (panic, (disconnect_peer w peer (polling peer r)).1))
unfolding poll_peer polled_peer wait_for
late_frame_panics w w' peer r p frame other known e single unwrapping = (
  rw known refl,
  no_port_panics w' frame peer (disconnect_peer w peer (polling peer r)).1 unwrapping (
      disconnect_peer-port w peer (polling peer r) p other
        (held-port r (polling peer r) peer refl ∙ e) single),
)
