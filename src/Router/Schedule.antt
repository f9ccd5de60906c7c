-- ===== src/Router/Schedule.antt =====
-- src/router.rs, `start` and `spawn_peer`: the loops that drive a router, one round at a time, and the
-- runs that a scheduler can make of them with the calls from outside.
pub mod Links
pub mod Peers
pub mod Connect
pub mod Invariant
pub mod Late
use rust_pinecone.Prelude.{
  ◌≡◌, Bool, true, false, List, [], ◌∷◌, ◌++◌, Option, none, some, if◌then◌else◌, Reply, ok, err,
  panic, M, and_then, RouterError,
}
use rust_pinecone.Tree.{PublicKey}
use rust_pinecone.Frames.{Frame}
use rust_pinecone.Router.State.{Router, World, Task, Waiting, for_client, for_peer, wait_for}
use rust_pinecone.Router.Announce.{maintain_tree}
use rust_pinecone.Router.Maintenance.{maintain_snek, disconnect_peer, run_task, stop}
use rust_pinecone.Router.HandleFrame.{handle_frame, connect, poll_peer, polled_peer}

-- What `start` does itself; it spawns the loops below.
unfoldable pub start : Router → Router
start r = record r { running = true }

-- The rest of a round, which is only there while the router runs. `false` ends the loop.
abbrev while_running : M Router (Unit {0}) → M Router Bool
while_running m r = if r.running then and_then (m r) (λ _ s. (ok true, s)) else (ok false, r)

unfoldable pub local_round : M Router Bool
local_round r = while_running (wait_for for_client) r

module _ (w : World) where
  -- After a tick.
  unfoldable pub tree_round : M Router Bool
  tree_round r = while_running (maintain_tree w) r

  unfoldable pub snek_round : M Router Bool
  snek_round r = while_running (maintain_snek w) r

  -- `received` is what the client's channel yields: its end ends the loop, an error leaves it.
  unfoldable pub local_turn : Option Frame → M Router Bool
  local_turn none r = (ok false, r)
  local_turn (some frame) r = and_then (handle_frame w frame r.public_key r) (λ _ s. (ok true, s))

  -- A peer's loop ends with an error, or when the router stops, and then gives the peer up.
  unfoldable pub leave_peer : PublicKey → Reply (Unit {0}) × Router → Reply Bool × Router
  leave_peer peer (ok u, r) = (ok true, r)
  leave_peer peer (err e, r) = and_then (disconnect_peer w peer r) (λ _ s. (ok false, s))
  leave_peer peer (panic, r) = (panic, r)

  unfoldable pub peer_round : PublicKey → M Router Bool
  peer_round peer r =
      if r.running
      then leave_peer peer (poll_peer peer r)
      else and_then (disconnect_peer w peer r) (λ _ s. (ok false, s))

  unfoldable pub peer_turn : PublicKey → Option (Reply Frame) → M Router Bool
  peer_turn peer received r = leave_peer peer (polled_peer w peer received r)

-- A step is a round of some loop, up to the end or to where it waits for a frame, the turn of a loop
-- whose frame has come, a task that runs, or a call from outside, with any clock, random id and
-- answers of sinks and streams.
pub data Step : Router → Router → Type 0 where
  started : {r : Router} → Step r (start r)
  stopped : {r : Router} (w : World) → Step r (stop w r).1
  tree_tick : {r : Router} (w : World) → Step r (tree_round w r).1
  snek_tick : {r : Router} (w : World) → Step r (snek_round w r).1
  local_poll : {r : Router} → Step r (local_round r).1
  local_frame :
      {r : Router} (w : World) (before after : List Waiting) (received : Option Frame)
      → r.awaited ≡ before ++ for_client ∷ after
      → Step r (local_turn w received (record r { awaited = before ++ after })).1
  peer_poll : {r : Router} (w : World) (peer : PublicKey) → Step r (peer_round w peer r).1
  peer_frame :
      {r : Router} (w : World) (before after : List Waiting) (peer : PublicKey)
      (received : Option (Reply Frame))
      → r.awaited ≡ before ++ for_peer peer ∷ after
      → Step r (peer_turn w peer received (record r { awaited = before ++ after })).1
  connected :
      {r : Router} (w : World) (sink : Frame → Option RouterError) (reply : Option (Reply Frame))
      → Step r (connect w sink reply r).1
  disconnected : {r : Router} (w : World) (peer : PublicKey) → Step r (disconnect_peer w peer r).1
  task_run :
      {r : Router} (w : World) (before after : List Task) (t : Task)
      → r.spawned ≡ before ++ t ∷ after
      → Step r (run_task w t (record r { spawned = before ++ after })).1

pub data Reach : Router → Router → Type 0 where
  here : {r : Router} → Reach r r
  then_step : {r s t : Router} → Reach r s → Step s t → Reach r t
