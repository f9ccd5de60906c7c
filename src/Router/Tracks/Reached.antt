-- ===== src/Router/Tracks/Reached.antt =====
-- The paths in every state that a router of src/router.rs reaches.
use rust_pinecone.Prelude.{
  Bool, true, false, ◌++◌, All, Option, none, some, Reply, ok, err, panic, and_then,
}
use rust_pinecone.Tree.{PublicKey}
use rust_pinecone.Frames.{Frame}
use rust_pinecone.Frames.Announcement.{Ed25519, SigningKey}
use rust_pinecone.Router.State.{Router, World, for_client, wait_for, new_router}
use rust_pinecone.Router.Announce.{maintain_tree}
use rust_pinecone.Router.Maintenance.{maintain_snek, disconnect_peer}
use rust_pinecone.Router.HandleFrame.{handle_frame, polled_peer, poll_peer}
use rust_pinecone.Router.Schedule.{
  start, tree_round, snek_round, local_turn, local_round, leave_peer, peer_round, peer_turn, Step,
  started, stopped, tree_tick, snek_tick, local_poll, local_frame, peer_poll, peer_frame, connected,
  disconnected, task_run, Reach, here, then_step,
}
use rust_pinecone.Router.Tracks.{
  IsTracked, Tracks, Keyed, Begins, Ends, and_then-IsTracked, if-IsTracked,
}
use rust_pinecone.Router.Tracks.Tree.{maintain_tree-Tracks}
use rust_pinecone.Router.Tracks.Upkeep.{
  maintain_snek-Tracks, run_task-Tracks, disconnect_peer-Tracks, stop-Tracks,
}
use rust_pinecone.Router.Tracks.Peers.{
  handle_frame-Tracks, connect-Tracks, poll_peer-Tracks, polled_peer-Tracks,
}

module _ (w : World) where
  -- A round goes on after its work, or ends.
  round-IsTracked :
      (b : Bool) (x : Reply (Unit {0}) × Router)
      → IsTracked x.1
      → IsTracked (and_then x (λ _ s. (ok b, s))).1
  round-IsTracked b x v = and_then-IsTracked x (λ _ s. (ok b, s)) v (λ _ s u. u)

  tree_round-Tracks : Tracks (tree_round w)
  unfolding tree_round
  tree_round-Tracks r v =
      if-IsTracked r.running (and_then (maintain_tree w r) (λ _ s. (ok true, s))) (ok false, r)
        (round-IsTracked true (maintain_tree w r) (maintain_tree-Tracks w r v)) v

  snek_round-Tracks : Tracks (snek_round w)
  unfolding snek_round
  snek_round-Tracks r v =
      if-IsTracked r.running (and_then (maintain_snek w r) (λ _ s. (ok true, s))) (ok false, r)
        (round-IsTracked true (maintain_snek w r) (maintain_snek-Tracks w r v)) v

  local_turn-Tracks : (received : Option Frame) → Tracks (local_turn w received)
  unfolding local_turn
  local_turn-Tracks none r v = v
  local_turn-Tracks (some frame) r v =
      round-IsTracked true (handle_frame w frame r.public_key r)
        (handle_frame-Tracks w frame r.public_key r v)

  given_up-Tracks :
      (peer : PublicKey) → Tracks (λ r. and_then (disconnect_peer w peer r) (λ _ s. (ok false, s)))
  given_up-Tracks peer r v =
      round-IsTracked false (disconnect_peer w peer r) (disconnect_peer-Tracks w peer r v)

  leave_peer-IsTracked :
      (peer : PublicKey) (x : Reply (Unit {0}) × Router)
      → IsTracked x.1
      → IsTracked (leave_peer w peer x).1
  unfolding leave_peer
  leave_peer-IsTracked peer (ok u, r) v = v
  leave_peer-IsTracked peer (err e, r) v = given_up-Tracks peer r v
  leave_peer-IsTracked peer (panic, r) v = v

  peer_round-Tracks : (peer : PublicKey) → Tracks (peer_round w peer)
  unfolding peer_round
  peer_round-Tracks peer r v =
      if-IsTracked r.running (leave_peer w peer (poll_peer peer r))
        (and_then (disconnect_peer w peer r) (λ _ s. (ok false, s)))
        (leave_peer-IsTracked peer (poll_peer peer r) (poll_peer-Tracks w peer r v))
        (given_up-Tracks peer r v)

  peer_turn-Tracks :
      (peer : PublicKey) (received : Option (Reply Frame)) → Tracks (peer_turn w peer received)
  unfolding peer_turn
  peer_turn-Tracks peer received r v =
      leave_peer-IsTracked peer (polled_peer w peer received r)
        (polled_peer-Tracks w peer received r v)

local_round-Tracks : Tracks local_round
unfolding local_round wait_for
local_round-Tracks r v =
    if-IsTracked r.running (and_then (wait_for for_client r) (λ _ s. (ok true, s))) (ok false, r) v
      v

Step-IsTracked : {r s : Router} → Step r s → IsTracked r → IsTracked s
unfolding start
Step-IsTracked started v = v
Step-IsTracked {r = r} (stopped w) v = stop-Tracks w r v
Step-IsTracked {r = r} (tree_tick w) v = tree_round-Tracks w r v
Step-IsTracked {r = r} (snek_tick w) v = snek_round-Tracks w r v
Step-IsTracked {r = r} local_poll v = local_round-Tracks r v
Step-IsTracked {r = r} (local_frame w before after received e) v =
    local_turn-Tracks w received (record r { awaited = before ++ after }) v
Step-IsTracked {r = r} (peer_poll w peer) v = peer_round-Tracks w peer r v
Step-IsTracked {r = r} (peer_frame w before after peer received e) v =
    peer_turn-Tracks w peer received (record r { awaited = before ++ after }) v
Step-IsTracked {r = r} (connected w sink reply) v = connect-Tracks w sink reply r v
Step-IsTracked {r = r} (disconnected w peer) v = disconnect_peer-Tracks w peer r v
Step-IsTracked {r = r} (task_run w before after t e) v =
    run_task-Tracks w t (record r { spawned = before ++ after }) v

Reach-IsTracked : {r s : Router} → Reach r s → IsTracked r → IsTracked s
Reach-IsTracked here v = v
Reach-IsTracked (then_step reach step) v = Step-IsTracked step (Reach-IsTracked reach v)

-- In every state that a new router reaches by rounds of its loops, tasks and calls from outside,
-- in any order and with any clock, random ids and answers of sinks and streams: every entry of
-- the routing table stands under its own index; the ascending path and the candidate, where there
-- are any, are active paths of the router's own key with source 0; and the descending path, where
-- there is one, is an active path with destination 0.
pub reachable-paths :
    (c : Ed25519) (key : SigningKey) (r : Router)
    → Reach (new_router c key) r
    → All Keyed r.paths
      × Begins r.public_key r.ascending_path
      × Begins r.public_key r.candidate
      × Ends r.descending_path
unfolding new_router
reachable-paths c key r reach =
    let v =
      Reach-IsTracked reach
        (record { keyed = tt; ascending = tt; candidate = tt; descending = tt }) in
    (v.keyed, v.ascending, v.candidate, v.descending)
