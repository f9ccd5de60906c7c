-- ===== src/Examples/Paths.antt =====
-- The theorems on key routing and on paths, on concrete values.
use rust_pinecone.Prelude.{arith, refl, [], ◌∷◌, map, some, none, ok, true, false, ◌≡◌, ◌≢◌, Holds}
use rust_pinecone.Frames.{SnekBootstrapAck, SnekSetup, SnekSetupAck}
use rust_pinecone.Snek.{SnekPath}
use rust_pinecone.Router.State.{Router}
use rust_pinecone.Prelude.Maps.{nat_eq, get, insert, contains_key}
use rust_pinecone.Router.Ports.{port, find_port, get_peer_on_port}
use rust_pinecone.Router.Ports.Table.{IsTable, get_peer_on_port-port}
use rust_pinecone.Router.Maintenance.{leave_port, disconnect_peer}
use rust_pinecone.Router.Maintenance.DeadParent.{disconnect_peer_dead_parent}
use rust_pinecone.Router.HandleFrame.{connect}
use rust_pinecone.Router.HandleFrame.Refused.{opens_badly, connect_refused}
use rust_pinecone.Tree.{Port, PublicKey}
use rust_pinecone.Router.Maintenance.Disconnect.{leave_port_keeps_descending}
use rust_pinecone.Router.SnekHop.{next_snek_hop}
use rust_pinecone.Router.SnekHop.Chosen.{Chooses, next_snek_hop-Chooses}
use rust_pinecone.Router.Bootstrap.{handle_bootstrap_ack}
use rust_pinecone.Router.Bootstrap.Candidate.{SetsUp, handle_bootstrap_ack-SetsUp}
use rust_pinecone.Router.Setup.Descending.{Descends, handle_setup-Descends}
use rust_pinecone.Router.Setup.{handle_setup, handle_setup_ack}
use rust_pinecone.Router.Setup.Activation.{activated, Promotes, handle_setup_ack_effect}
use rust_pinecone.Examples.{world, root, router}

-- The root answers the router's bootstrap.
abbrev bootstrap_ack : SnekBootstrapAck
bootstrap_ack = record {
  destination_coordinates = record { coordinates = 2 ∷ [] };
  destination_key = 5;
  source_coordinates = record { coordinates = [] };
  source_key = 9;
  root = root;
  path_id = 7;
}

handle_bootstrap_ack-SetsUp_example :
    SetsUp world bootstrap_ack router (handle_bootstrap_ack world bootstrap_ack router).1
handle_bootstrap_ack-SetsUp_example = handle_bootstrap_ack-SetsUp world bootstrap_ack router

-- The node 4 behind the root sets up a path to the router.
abbrev setup : SnekSetup
setup = record {
  root = root;
  destination = record { coordinates = 2 ∷ [] };
  destination_key = 5;
  source_key = 4;
  path_id = 1;
}

handle_setup-Descends_example :
    Descends world 1 setup router (handle_setup world 1 setup 0 router).1
handle_setup-Descends_example = handle_setup-Descends world 1 setup 0 router

next_snek_hop-Chooses_example :
    Holds (Chooses world router 7 false true) (next_snek_hop 7 false world router true)
next_snek_hop-Chooses_example = next_snek_hop-Chooses world router 7 false true

-- The router's own path to the root, which waits for its acknowledgement.
abbrev waiting : SnekPath
waiting = record {
  index = record { public_key = 5; path_id = 7 };
  origin = 9;
  target = 9;
  source = 0;
  destination = 1;
  last_seen = 60;
  root = root;
  active = false;
}

abbrev setting_up : Router
setting_up = record router {
  paths = (waiting.index, waiting) ∷ [];
  candidate = some (record waiting { active = true });
}

abbrev ack : SnekSetupAck
ack = record { root = root; destination_key = 5; path_id = 7 }

handle_setup_ack_effect_example :
    Holds
      (λ _.
        (handle_setup_ack world 1 ack setting_up).1.paths
        ≡ map (activated world 1 ack) setting_up.paths)
      (handle_setup_ack world 1 ack setting_up).0
    × Promotes setting_up (handle_setup_ack world 1 ack setting_up).1
handle_setup_ack_effect_example = handle_setup_ack_effect world 1 ack setting_up

router-IsTable : IsTable router.ports
unfolding contains_key
router-IsTable = (λ e. absurd (omega arith), refl, tt)

router_port : port router 9 ≡ some 1
unfolding port find_port
router_port = refl

get_peer_on_port-port_example : get_peer_on_port router 1 ≡ some 9
get_peer_on_port-port_example = get_peer_on_port-port router 9 1 router-IsTable router_port

-- A path of the node 4, which came over port 1 and ends here.
abbrev descending : SnekPath
descending = record {
  index = record { public_key = 4; path_id = 1 };
  origin = 4;
  target = 5;
  source = 1;
  destination = 0;
  last_seen = 60;
  root = root;
  active = true;
}

abbrev below : Router
below = record router { descending_path = some descending }

leave_port_keeps_descending_example :
    (leave_port world (some 1) below).1.descending_path ≡ some descending
leave_port_keeps_descending_example =
    leave_port_keeps_descending world 1 descending below refl refl (λ e. absurd (omega arith))

-- A path to the root over port 1, where the root is the parent.
abbrev above : Router
above = record router { ascending_path = some (record waiting { active = true }) }

above_port : port above 9 ≡ some 1
unfolding port find_port
above_port = refl

disconnect_peer_dead_parent_example :
    ((disconnect_peer world 9 above).1.parent ≡ 9)
    × (get (disconnect_peer world 9 above).1.announcements 9 ≡ none)
disconnect_peer_dead_parent_example =
    disconnect_peer_dead_parent world 9 1 (record waiting { active = true }) above above_port refl
      refl refl

closed_at_once : opens_badly none ≡ true
unfolding opens_badly
closed_at_once = refl

connect_refused_example :
    ((key : PublicKey) → (connect world (λ f. none) none router).0 ≢ ok key)
    × ((p : Port) × (contains_key router.ports p ≡ false)
        × ((connect world (λ f. none) none router).1
            ≡ record router { ports = insert router.ports p none }))
connect_refused_example = connect_refused world (λ f. none) none router closed_at_once
