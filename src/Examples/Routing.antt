-- ===== src/Examples/Routing.antt =====
-- The theorems on announcements, coordinates and the router, on concrete values.
use rust_pinecone.Prelude.{
  ◌+◌, ◌*◌, ◌≤◌, ◌<◌, ◌≡◌, ◌≢◌, ◌↔◌, ◌⊎◌, refl, arith, true, false, [], ◌∷◌, none, some, length, ok,
  Holds,
}
use rust_pinecone.Prelude.Maps
use rust_pinecone.Prelude.Maps.{nat_eq, contains_key, insert}
use rust_pinecone.Bytes.{big_endian}
use rust_pinecone.Bytes.Words.{be}
use rust_pinecone.Tree.{Port, Root}
use rust_pinecone.Coordinates.{Coordinates, distance_to, get_common_prefix}
use rust_pinecone.Coordinates.Metric.{distance_no_underflow, distance_to_metric}
use rust_pinecone.Frames.{TreeAnnouncement}
use rust_pinecone.Frames.Announcement.{
  is_clean, signatures_clean, passes, any, has_loop, same_signer, range_from, verify_all, put_root,
  put_signer, append_signature, has_same_root_key, replayed_old_sequence,
}
use rust_pinecone.Frames.Checks.{Distinct}
use rust_pinecone.Frames.Relay.{append_signature-is_clean}
use rust_pinecone.Snek.{SnekPathIndex, SnekPath}
use rust_pinecone.Router.State.{Router, reparenting, sequence_max}
use rust_pinecone.Router.Ports.{get_new_port, peers}
use rust_pinecone.Router.Ports.Fresh.{get_new_port_total}
use rust_pinecone.Router.Announce.{announcement_of, current_root, reparent_timer_expired}
use rust_pinecone.Router.TreeHop.{next_tree_hop}
use rust_pinecone.Router.TreeHop.Progress.{Forwards, next_tree_hop-Forwards}
use rust_pinecone.Router.HandleAnnouncement.Signed.{Signed, handle_tree_announcement-Signed}
use rust_pinecone.Router.HandleAnnouncement.{is_replay, stamped, handle_tree_announcement}
use rust_pinecone.Router.HandleAnnouncement.Replay.{
  handle_tree_announcement-Newer, parent_announcement_reselects,
}
use rust_pinecone.Router.ParentSelection.{best_parent}
use rust_pinecone.Router.ParentSelection.Best.{Strongest, best_parent-Strongest}
use rust_pinecone.Router.Teardown.{teardown_path}
use rust_pinecone.Router.Teardown.Effect.{Without, KeptOr, teardown_path_effect}
use rust_pinecone.Examples.{toy, toy-IsCorrect, world, root, announcement, router}

abbrev far : Coordinates
far = record { coordinates = 8 ∷ 1 ∷ [] }

next_tree_hop-Forwards_example :
    Holds (Forwards world router far 4) (next_tree_hop world router far 4)
next_tree_hop-Forwards_example = next_tree_hop-Forwards world router far 4

router-Signed : Signed router
router-Signed = (λ e. cc, tt)

-- The same root's next announcement.
abbrev next : TreeAnnouncement
next = record announcement { root = record { public_key = 9; sequence_number = 4 } }

handle_tree_announcement-Newer_example :
    (a : TreeAnnouncement) × (announcement_of (handle_tree_announcement world next 9 router).1 9
      ≡ some a)
    × ((a.root.public_key ≢ announcement.root.public_key)
        ⊎ (announcement.root.sequence_number ≤ a.root.sequence_number))
unfolding Maps.get
handle_tree_announcement-Newer_example =
    handle_tree_announcement-Newer world next 9 router announcement refl

handle_tree_announcement-Signed_example : Signed (handle_tree_announcement world next 9 router).1
handle_tree_announcement-Signed_example =
    handle_tree_announcement-Signed world next 9 router router-Signed

announcement_clean : is_clean big_endian toy announcement 9 ≡ ok true
unfolding is_clean signatures_clean passes any has_loop same_signer range_from verify_all put_root
    put_signer be
announcement_clean = refl

announcement-Distinct : Distinct announcement.signatures
announcement-Distinct i j hi hj ne = absurd (ne (omega arith))

append_signature-is_clean_example :
    is_clean big_endian toy (append_signature big_endian toy announcement 5 3) 5 ≡ ok true
append_signature-is_clean_example =
    append_signature-is_clean big_endian toy-IsCorrect announcement 9 5 3 announcement_clean
      announcement-Distinct (λ e. absurd (omega arith))

abbrev index : SnekPathIndex
index = record { public_key = 9; path_id = 1 }

abbrev path : SnekPath
path = record {
  index = index;
  origin = 9;
  target = 5;
  source = 1;
  destination = 2;
  last_seen = 40;
  root = root;
  active = true;
}

abbrev crossed : Router
crossed = record router { paths = (index, path) ∷ [] }

teardown_path_effect_example :
    (teardown_path 1 index crossed ≡ ([], crossed))
    ⊎ (((teardown_path 1 index crossed).0 ≢ [])
        × Without index crossed (teardown_path 1 index crossed).1
        × KeptOr 1 index crossed.ascending_path (teardown_path 1 index crossed).1.ascending_path
        × KeptOr 1 index crossed.descending_path (teardown_path 1 index crossed).1.descending_path)
teardown_path_effect_example = teardown_path_effect 1 index crossed

best_parent-Strongest_example :
    Holds
      (Strongest world router (current_root world router) (peers router))
      (best_parent world router)
best_parent-Strongest_example = best_parent-Strongest world router

get_new_port_total_example :
    (p : Port) × (get_new_port router
      ≡ (ok p, record router { ports = insert router.ports p none }))
    × (1 ≤ p)
    × (contains_key router.ports p ≡ false)
    × ((q : Port) → 1 ≤ q → q < p → contains_key router.ports q ≡ true)
get_new_port_total_example = get_new_port_total router

abbrev near : Coordinates
near = record { coordinates = 8 ∷ [] }

abbrev aside : Coordinates
aside = record { coordinates = 2 ∷ [] }

distance_to_metric_example :
    ((distance_to far near ≡ 0) ↔ (far ≡ near))
    × (distance_to far near ≡ distance_to near far)
    × (distance_to far aside ≤ distance_to far near + distance_to near aside)
distance_to_metric_example = distance_to_metric far near aside

distance_no_underflow_example :
    2 * get_common_prefix far near ≤ length far.coordinates + length near.coordinates
distance_no_underflow_example = distance_no_underflow far near

abbrev newer_root : Root
newer_root = record { public_key = 9; sequence_number = 4 }

router_small : router.ordering < sequence_max
router_small = omega arith

stamped_clean : is_clean big_endian toy (stamped world announcement 2) 9 ≡ ok true
unfolding stamped is_clean signatures_clean passes any has_loop same_signer range_from verify_all
    put_root put_signer be
stamped_clean = refl

stamped_fresh : is_replay (stamped world announcement 2) (announcement_of router 9) ≡ false
unfolding stamped is_replay has_same_root_key replayed_old_sequence Maps.get
stamped_fresh = refl

timer_expired : reparent_timer_expired world router ≡ true
unfolding reparent_timer_expired
timer_expired = refl

parent_announcement_reselects_example : handle_tree_announcement world announcement 9 router ≡ (
  ok tt,
  record router {
    ordering = 2;
    announcements = Maps.insert router.announcements 9 (stamped world announcement 2);
    parent = 5;
    spawned = reparenting true ∷ [];
  },
)
parent_announcement_reselects_example =
    parent_announcement_reselects world announcement router router_small stamped_clean stamped_fresh
      timer_expired
