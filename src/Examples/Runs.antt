-- ===== src/Examples/Runs.antt =====
-- The theorems on the states that a router reaches, on a run: it starts, and its peer connects.
use rust_pinecone.Prelude.{All, some, none, ok, IsOk, [], ◌≡◌, refl, true, panic}
use rust_pinecone.Prelude.Maps.{nat_eq, contains_key, remove}
use rust_pinecone.Frames.{tree_announcement, SnekTeardown, snek_teardown}
use rust_pinecone.Router.State.{Router, new_router}
use rust_pinecone.Router.HandleFrame.{connect, poll_peer, polled_peer}
use rust_pinecone.Router.TreeHop.{next_tree_hop}
use rust_pinecone.Router.Schedule.{start, started, connected, Reach, here, then_step}
use rust_pinecone.Router.Schedule.Peers.{IsValid}
use rust_pinecone.Router.Schedule.Invariant.{reachable-IsValid, reachable-next_tree_hop}
use rust_pinecone.Router.Tracks.{Keyed, Begins, Ends}
use rust_pinecone.Router.Tracks.Reached.{reachable-paths}
use rust_pinecone.Router.Ports.{port, find_port}
use rust_pinecone.Router.Maintenance.{disconnect_peer}
use rust_pinecone.Router.Schedule.Late.{polling, on_teardown, late_frame_panics}
use rust_pinecone.Examples.{toy, world, announcement, root, router}

abbrev fresh_router : Router
unfolding new_router
fresh_router = new_router toy 5

abbrev running_router : Router
unfolding start
running_router = start fresh_router

abbrev joined_router : Router
unfolding connect
joined_router =
    (connect world (λ f. none) (some (ok (tree_announcement announcement))) running_router).1

joined_router-Reach : Reach (new_router toy 5) joined_router
unfolding start connect new_router
joined_router-Reach =
    then_step (then_step here started)
      (connected world (λ f. none) (some (ok (tree_announcement announcement))))

reachable-IsValid_example : IsValid joined_router
reachable-IsValid_example = reachable-IsValid toy 5 joined_router joined_router-Reach

reachable-next_tree_hop_example :
    IsOk (next_tree_hop world joined_router (record { coordinates = [] }) 9)
reachable-next_tree_hop_example =
    reachable-next_tree_hop toy 5 joined_router world (record { coordinates = [] }) 9
      joined_router-Reach

reachable-paths_example :
    All Keyed joined_router.paths
    × Begins joined_router.public_key joined_router.ascending_path
    × Begins joined_router.public_key joined_router.candidate
    × Ends joined_router.descending_path
reachable-paths_example = reachable-paths toy 5 joined_router joined_router-Reach

-- A teardown from the peer 9, which is on port 1 of the router 5.
abbrev teardown : SnekTeardown
teardown = record { root = root; destination_key = 5; path_id = 7 }

router_connected : contains_key router.download_connections 9 ≡ true
unfolding contains_key
router_connected = refl

router_port : port router 9 ≡ some 1
unfolding port find_port
router_port = refl

router_single : find_port (remove router.ports 1) 9 ≡ none
unfolding find_port remove
router_single = refl

late_frame_panics_example :
    (poll_peer 9 router ≡ (ok tt, polling 9 router))
    × (polled_peer world 9
          (some (ok (snek_teardown teardown)))
          (disconnect_peer world 9 (polling 9 router)).1
        ≡ (panic, (disconnect_peer world 9 (polling 9 router)).1))
late_frame_panics_example =
    late_frame_panics world world 9 router 1 (snek_teardown teardown) refl router_connected
      router_port router_single (on_teardown teardown)
