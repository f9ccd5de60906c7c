-- ===== src/Router/Schedule/Invariant.antt =====
-- Every state that a router of src/router.rs reaches, in whatever order its loops, its tasks and the
-- calls from outside run.
use rust_pinecone.Prelude.{
  refl, true, false, Option, none, some, Reply, ok, err, panic, IsOk, connection_closed, and_then,
  ◌++◌,
}
use rust_pinecone.Prelude.Maps.{nat_eq, get, contains_key}
use rust_pinecone.Tree.{PublicKey}
use rust_pinecone.Coordinates.{Coordinates}
use rust_pinecone.Frames.{Frame}
use rust_pinecone.Frames.Announcement.{Ed25519, SigningKey}
use rust_pinecone.Router.State.{Router, World, for_client, for_peer, wait_for, new_router}
use rust_pinecone.Router.Sends.{and_then-state}
use rust_pinecone.Router.TreeHop.{next_tree_hop}
use rust_pinecone.Router.TreeHop.Total.{next_tree_hop_total}
use rust_pinecone.Router.Announce.{maintain_tree}
use rust_pinecone.Router.Maintenance.{maintain_snek, disconnect_peer, run_task}
use rust_pinecone.Router.HandleFrame.{handle_frame, poll_peer, polled_peer}
use rust_pinecone.Router.Keeps.Tree.{maintain_tree-held}
use rust_pinecone.Router.Keeps.Upkeep.{maintain_snek-held, run_task-held}
use rust_pinecone.Router.Schedule.{
  start, tree_round, snek_round, local_turn, local_round, leave_peer, peer_round, peer_turn, Step,
  started, stopped, tree_tick, snek_tick, local_poll, local_frame, peer_poll, peer_frame, connected,
  disconnected, task_run, Reach, here, then_step,
}
use rust_pinecone.Router.Schedule.Connect.{handle_frame-IsValid, connect-IsValid}
use rust_pinecone.Router.Schedule.Peers.{
  IsValid, if-IsValid, held-IsValid, disconnect_peer-IsValid, stop-IsValid,
}

module _ (w : World) where
  -- A round goes on after its work.
  again-IsValid :
      (x : Reply (Unit {0}) × Router) → IsValid x.1 → IsValid (and_then x (λ _ s. (ok true, s))).1
  again-IsValid x v = and_then-state IsValid x (λ _ s. (ok true, s)) v (λ _. v)

  tree_round-IsValid : (r : Router) → IsValid r → IsValid (tree_round w r).1
  unfolding tree_round
  tree_round-IsValid r v =
      if-IsValid r.running (and_then (maintain_tree w r) (λ _ s. (ok true, s))) (ok false, r)
        (again-IsValid (maintain_tree w r)
          (held-IsValid r (maintain_tree w r).1 (maintain_tree-held w r) v))
        v

  snek_round-IsValid : (r : Router) → IsValid r → IsValid (snek_round w r).1
  unfolding snek_round
  snek_round-IsValid r v =
      if-IsValid r.running (and_then (maintain_snek w r) (λ _ s. (ok true, s))) (ok false, r)
        (again-IsValid (maintain_snek w r)
          (held-IsValid r (maintain_snek w r).1 (maintain_snek-held w r) v))
        v

  local_turn-IsValid :
      (received : Option Frame) (r : Router) → IsValid r → IsValid (local_turn w received r).1
  unfolding local_turn
  local_turn-IsValid none r v = v
  local_turn-IsValid (some frame) r v =
      again-IsValid (handle_frame w frame r.public_key r)
        (handle_frame-IsValid w frame r.public_key r v)

  given_up-IsValid :
      (peer : PublicKey) (r : Router)
      → IsValid r
      → IsValid (and_then (disconnect_peer w peer r) (λ _ s. (ok false, s))).1
  given_up-IsValid peer r v =
      let kept = disconnect_peer-IsValid w peer r v in
      and_then-state IsValid (disconnect_peer w peer r) (λ _ s. (ok false, s)) kept (λ _. kept)

  leave_peer-IsValid :
      (peer : PublicKey) (x : Reply (Unit {0}) × Router)
      → IsValid x.1
      → IsValid (leave_peer w peer x).1
  unfolding leave_peer
  leave_peer-IsValid peer (ok u, r) v = v
  leave_peer-IsValid peer (err e, r) v = given_up-IsValid peer r v
  leave_peer-IsValid peer (panic, r) v = v

  poll_peer-IsValid : (peer : PublicKey) (r : Router) → IsValid r → IsValid (poll_peer peer r).1
  unfolding poll_peer wait_for
  poll_peer-IsValid peer r v =
      if-IsValid (contains_key r.download_connections peer) (wait_for (for_peer peer) r)
        (err connection_closed, r) v v

  polled_peer-IsValid :
      (peer : PublicKey) (received : Option (Reply Frame)) (r : Router)
      → IsValid r
      → IsValid (polled_peer w peer received r).1
  unfolding polled_peer
  polled_peer-IsValid peer none r v = v
  polled_peer-IsValid peer (some (ok frame)) r v = handle_frame-IsValid w frame peer r v
  polled_peer-IsValid peer (some (err e)) r v = v
  polled_peer-IsValid peer (some panic) r v = v

  peer_round-IsValid : (peer : PublicKey) (r : Router) → IsValid r → IsValid (peer_round w peer r).1
  unfolding peer_round
  peer_round-IsValid peer r v =
      if-IsValid r.running (leave_peer w peer (poll_peer peer r))
        (and_then (disconnect_peer w peer r) (λ _ s. (ok false, s)))
        (leave_peer-IsValid peer (poll_peer peer r) (poll_peer-IsValid peer r v))
        (given_up-IsValid peer r v)

  peer_turn-IsValid :
      (peer : PublicKey) (received : Option (Reply Frame)) (r : Router)
      → IsValid r
      → IsValid (peer_turn w peer received r).1
  unfolding peer_turn
  peer_turn-IsValid peer received r v =
      leave_peer-IsValid peer (polled_peer w peer received r)
        (polled_peer-IsValid peer received r v)

local_round-IsValid : (r : Router) → IsValid r → IsValid (local_round r).1
unfolding local_round wait_for
local_round-IsValid r v =
    if-IsValid r.running (and_then (wait_for for_client r) (λ _ s. (ok true, s))) (ok false, r) v v

-- A step keeps connections, ports and announcements in order.
pub Step-IsValid : {r s : Router} → Step r s → IsValid r → IsValid s
unfolding start
Step-IsValid started v = v
Step-IsValid {r = r} (stopped w) v = stop-IsValid w r v
Step-IsValid {r = r} (tree_tick w) v = tree_round-IsValid w r v
Step-IsValid {r = r} (snek_tick w) v = snek_round-IsValid w r v
Step-IsValid {r = r} local_poll v = local_round-IsValid r v
Step-IsValid {r = r} (local_frame w before after received e) v =
    local_turn-IsValid w received (record r { awaited = before ++ after }) v
Step-IsValid {r = r} (peer_poll w peer) v = peer_round-IsValid w peer r v
Step-IsValid {r = r} (peer_frame w before after peer received e) v =
    peer_turn-IsValid w peer received (record r { awaited = before ++ after }) v
Step-IsValid {r = r} (connected w sink reply) v = connect-IsValid w sink reply r v
Step-IsValid {r = r} (disconnected w peer) v = disconnect_peer-IsValid w peer r v
Step-IsValid {r = r} (task_run w before after t e) v =
    let rest = record r { spawned = before ++ after } in
    held-IsValid rest (run_task w t rest).1 (run_task-held w t rest) v

Reach-IsValid : {r s : Router} → Reach r s → IsValid r → IsValid s
Reach-IsValid here v = v
Reach-IsValid (then_step reach step) v = Step-IsValid step (Reach-IsValid reach v)

new_router-IsValid : (c : Ed25519) (key : SigningKey) → IsValid (new_router c key)
unfolding new_router get
new_router-IsValid c key =
    (record { table = tt; paired = refl; ported = λ peer h. absurd (cc h) }, tt)

-- In every state that a new router reaches by rounds of its loops, tasks and calls from outside,
-- in any order and with any clock, random ids and answers of sinks and streams: no port has two
-- entries and port 0 has none, the upload and the download connections are of the same peers,
-- every peer with a connection has a port, and every stored announcement has a signature.
pub reachable-IsValid :
    (c : Ed25519) (key : SigningKey) (r : Router) → Reach (new_router c key) r → IsValid r
reachable-IsValid c key r reach = Reach-IsValid reach (new_router-IsValid c key)

-- In every state that a new router reaches, tree routing ends with a result, a hop or none, and
-- never with a panic, for any destination and any sender.
pub reachable-next_tree_hop :
    (c : Ed25519) (key : SigningKey) (r : Router) (w : World) (dest : Coordinates)
    (from : PublicKey)
    → Reach (new_router c key) r
    → IsOk (next_tree_hop w r dest from)
reachable-next_tree_hop c key r w dest from reach =
    next_tree_hop_total w r dest from (reachable-IsValid c key r reach).1
