-- ===== src/Router/HandleAnnouncement.antt =====
-- src/router.rs, `handle_tree_announcement`: the state machine of the spanning tree.
pub mod Replay
pub mod Signed
use rust_pinecone.Prelude.{
  ℕ, ◌≡◌, Bool, true, false, not, ◌&&◌, List, [], ◌∷◌, Option, none, some, ltb, ◌==◌, if◌then◌else◌,
  Reply, ok, err, panic, M, and_then,
}
use rust_pinecone.Tree.{PublicKey, Root}
use rust_pinecone.Frames.{TreeAnnouncement}
use rust_pinecone.Frames.Announcement.{
  is_clean, is_loop_of_child, has_same_root_key, replayed_old_sequence,
}
use rust_pinecone.Router.State.{Router, World, next_ordering, spawn, reparenting}
use rust_pinecone.Router.Announce.{
  announcement_of, set_tree_announcement, set_parent, become_root, current_announcement,
  current_root, send_tree_announcement, send_tree_announcements_to_all, reparent_timer_expired,
}

-- An older sequence number than the one stored for the same root.
unfoldable pub is_replay : TreeAnnouncement → Option TreeAnnouncement → Bool
is_replay frame none = false
is_replay frame (some stored) = has_same_root_key frame stored && replayed_old_sequence frame stored

-- SelectNewParentWithWait
unfoldable pub select_new_parent_with_wait : M Router (Unit {0})
select_new_parent_with_wait r = spawn (reparenting true) (become_root r)

module _ (w : World) where
  -- The announcement came from the parent.
  unfoldable pub from_parent : TreeAnnouncement → M Router (Unit {0})
  from_parent frame r =
      let ours = current_root w r in
      if is_loop_of_child frame r.public_key
      then select_new_parent_with_wait r
      else if ltb frame.root.public_key ours.public_key
      then select_new_parent_with_wait r
      else if ltb ours.public_key frame.root.public_key
      then send_tree_announcements_to_all w (current_announcement w r) r
      else if ltb ours.sequence_number frame.root.sequence_number
      then send_tree_announcements_to_all w (current_announcement w r) r
      else select_new_parent_with_wait r

  -- The announcement came from another peer.
  unfoldable pub from_other : TreeAnnouncement → PublicKey → M Router (Unit {0})
  from_other frame from r =
      let ours = current_root w r in
      let r' = set_parent from r in
      if is_loop_of_child frame r.public_key
      then (ok tt, r)
      else if ltb ours.public_key frame.root.public_key
      then send_tree_announcements_to_all w (current_announcement w r') r'
      else if ltb frame.root.public_key ours.public_key
      then send_tree_announcement w (current_announcement w r) from r
      else spawn (reparenting false) r

  -- What follows once the announcement is stored.
  unfoldable pub react : TreeAnnouncement → PublicKey → M Router (Unit {0})
  react frame from r =
      if reparent_timer_expired w r
      then if from == r.parent then from_parent frame r else from_other frame from r
      else (ok tt, r)

  -- The announcement is clean.
  unfoldable pub accept : TreeAnnouncement → PublicKey → M Router (Unit {0})
  accept frame from r =
      if is_replay frame (announcement_of r from)
      then (ok tt, r)
      else react frame from (set_tree_announcement from frame r)

  unfoldable pub check_clean : TreeAnnouncement → PublicKey → M Router (Unit {0})
  check_clean frame from r = elim (is_clean w.buffers w.crypto frame from) [
    | ok clean ↦ if clean then accept frame from r else (ok tt, r)
    | err e ↦ (err e, r)
    | panic ↦ (panic, r)
  ]

  -- The frame as it is stored, with the time and the order of its arrival.
  unfoldable pub stamped : TreeAnnouncement → ℕ → TreeAnnouncement
  stamped frame order = record frame { receive_time = w.now; receive_order = order }

  unfoldable pub handle_tree_announcement : TreeAnnouncement → PublicKey → M Router (Unit {0})
  handle_tree_announcement frame from r =
      and_then (next_ordering r) λ order. check_clean (stamped frame order) from
