-- ===== src/Router/HandleAnnouncement/Replay.antt =====
-- `handle_tree_announcement` of src/router.rs: what a router keeps, and what the parent's do.
use rust_pinecone.Prelude.{
  ◌+◌, ◌<◌, ◌≤◌, ◌≡◌, ◌≢◌, ◌⊎◌, inl, inr, refl, ap, ◌∙◌, arith, Bool, true, false, [], ◌∷◌, ◌++◌,
  some, ltb, lt→ltb, ==_self, Bool-cases, Reply, ok, err, panic,
}
use rust_pinecone.Prelude.Maps
use rust_pinecone.Prelude.Maps.{nat_eq, get-insert}
use rust_pinecone.Tree.{PublicKey}
use rust_pinecone.Frames.{TreeAnnouncement}
use rust_pinecone.Frames.Announcement.{is_clean, has_same_root_key, replayed_old_sequence}
use rust_pinecone.Router.State.{Router, World, next_ordering, sequence_max, spawn, reparenting}
use rust_pinecone.Router.Sends.{send_tree_announcement-core, send_tree_announcements_to_all-core}
use rust_pinecone.Router.Announce.{
  announcement_of, set_tree_announcement, set_parent, become_root, current_announcement,
  current_root, reparent_timer_expired,
}
use rust_pinecone.Router.HandleAnnouncement.{
  is_replay, select_new_parent_with_wait, from_parent, from_other, react, accept, check_clean,
  stamped, handle_tree_announcement,
}

module _ (w : World) where
  pub react-announcements :
      (frame : TreeAnnouncement) (from : PublicKey) (r : Router)
      → (react w frame from r).1.announcements ≡ r.announcements
  unfolding react from_parent from_other select_new_parent_with_wait set_parent become_root spawn
  react-announcements frame from r = ground (
    arith,
    ap (λ (x : Router). x.announcements)
        (send_tree_announcements_to_all-core w (current_announcement w r) r),
    ap (λ (x : Router). x.announcements)
        (send_tree_announcements_to_all-core w (current_announcement w (set_parent from r))
          (set_parent from r)),
    ap (λ (x : Router). x.announcements)
        (send_tree_announcement-core w (current_announcement w r) from r),
  )

  -- The announcement stored for the sender is the old one, or one that is no replay of it.
  abbrev Newer : TreeAnnouncement → TreeAnnouncement → Type 0
  Newer a a' =
      (a'.root.public_key ≢ a.root.public_key) ⊎ (a.root.sequence_number ≤ a'.root.sequence_number)

  no_replay-Newer : (frame a : TreeAnnouncement) → is_replay frame (some a) ≡ false → Newer a frame
  unfolding is_replay has_same_root_key replayed_old_sequence
  no_replay-Newer frame a h = ground arith

  accept-Newer :
      (frame : TreeAnnouncement) (from : PublicKey) (r : Router) (a : TreeAnnouncement)
      → announcement_of r from ≡ some a
      → (a' : TreeAnnouncement) × (announcement_of (accept w frame from r).1 from ≡ some a')
        × Newer a a'
  unfolding accept set_tree_announcement
  accept-Newer frame from r a known = elim (Bool-cases (is_replay frame (announcement_of r from))) [
    | inl replay ↦ (a, rw (replay, accept) known, inr (omega arith))
    | inr fresh ↦ (
      frame,
      rw (fresh, accept)
          (ap (λ m. Maps.get m from)
              (react-announcements frame from (set_tree_announcement from frame r))
            ∙ get-insert r.announcements from from frame
            ∙ rw (==_self from)),
      no_replay-Newer frame a (rw known at fresh),
    )
  ]

  check_clean-Newer :
      (frame : TreeAnnouncement) (from : PublicKey) (r : Router) (a : TreeAnnouncement)
      → announcement_of r from ≡ some a
      → (a' : TreeAnnouncement) × (announcement_of (check_clean w frame from r).1 from ≡ some a')
        × Newer a a'
  unfolding check_clean
  check_clean-Newer frame from r a known = go (is_clean w.buffers w.crypto frame from) refl
    where
      go :
          (x : Reply Bool)
          → is_clean w.buffers w.crypto frame from ≡ x
          → (a' : TreeAnnouncement) × (announcement_of (check_clean w frame from r).1 from
              ≡ some a')
            × Newer a a'
      go (ok true) e = rw (e, check_clean) (accept-Newer frame from r a known)
      go (ok false) e = (a, rw (e, check_clean) known, inr (omega arith))
      go (err x) e = (a, rw (e, check_clean) known, inr (omega arith))
      go panic e = (a, rw (e, check_clean) known, inr (omega arith))

  -- If an announcement is stored for a peer, then whatever announcement comes from that peer, one
  -- is stored for it after `handle_tree_announcement`, and it has another root key than the one
  -- before or no lower sequence number.
  pub handle_tree_announcement-Newer :
      (frame : TreeAnnouncement) (from : PublicKey) (r : Router) (a : TreeAnnouncement)
      → announcement_of r from ≡ some a
      → (a' : TreeAnnouncement) × (announcement_of (handle_tree_announcement w frame from r).1 from
          ≡ some a')
        × ((a'.root.public_key ≢ a.root.public_key)
            ⊎ (a.root.sequence_number ≤ a'.root.sequence_number))
  unfolding handle_tree_announcement next_ordering
  handle_tree_announcement-Newer frame from r a known =
      elim (Bool-cases (ltb r.ordering sequence_max)) [
        | inl small ↦ rw small (
            check_clean-Newer (stamped w frame (r.ordering + 1)) from
              (record r { ordering = r.ordering + 1 }) a known)
        | inr full ↦ rw full (a, known, inr (omega arith))
      ]

  -- The root that a stored announcement of the parent is compared with is its own.
  current_root-stored :
      (frame : TreeAnnouncement) (r : Router)
      → current_root w (set_tree_announcement r.parent frame r) ≡ frame.root
  unfolding current_root current_announcement set_tree_announcement
  current_root-stored frame r =
      rw (get-insert r.announcements r.parent r.parent frame, current_root) (rw (==_self r.parent))

  from_parent-stored :
      (frame : TreeAnnouncement) (r : Router)
      → current_root w r ≡ frame.root
      → from_parent w frame r ≡ select_new_parent_with_wait r
  unfolding from_parent
  from_parent-stored frame r e = rw (e, from_parent) (ground arith)

  react-parent :
      (frame : TreeAnnouncement) (r : Router)
      → reparent_timer_expired w r ≡ true
      → current_root w r ≡ frame.root
      → react w frame r.parent r ≡ select_new_parent_with_wait r
  unfolding react
  react-parent frame r t e = rw (t, react, ==_self r.parent) (from_parent-stored frame r e)

  accept-parent :
      (frame : TreeAnnouncement) (r : Router)
      → is_replay frame (announcement_of r r.parent) ≡ false
      → reparent_timer_expired w r ≡ true
      → accept w frame r.parent r
        ≡ select_new_parent_with_wait (set_tree_announcement r.parent frame r)
  unfolding accept set_tree_announcement
  accept-parent frame r fresh t =
      rw (fresh, accept)
        (react-parent frame (set_tree_announcement r.parent frame r)
          (unfold set_tree_announcement reparent_timer_expired in t) (current_root-stored frame r))

  check_clean-true :
      (frame : TreeAnnouncement) (from : PublicKey) (r : Router)
      → is_clean w.buffers w.crypto frame from ≡ ok true
      → check_clean w frame from r ≡ accept w frame from r
  unfolding check_clean
  check_clean-true frame from r e = rw (e, check_clean)

  -- With room in the ordering counter and outside the waiting time, an announcement of the parent
  -- that is clean and no replay is stored, and then the router becomes its own root and schedules
  -- a new parent selection, whatever root and sequence number it brings; nothing is sent.
  pub parent_announcement_reselects :
      (frame : TreeAnnouncement) (r : Router)
      → r.ordering < sequence_max
      → is_clean w.buffers w.crypto (stamped w frame (r.ordering + 1)) r.parent ≡ ok true
      → is_replay (stamped w frame (r.ordering + 1)) (announcement_of r r.parent) ≡ false
      → reparent_timer_expired w r ≡ true
      → handle_tree_announcement w frame r.parent r ≡ (
        ok tt,
        record r {
          ordering = r.ordering + 1;
          announcements = Maps.insert r.announcements r.parent (stamped w frame (r.ordering + 1));
          parent = r.public_key;
          spawned = r.spawned ++ reparenting true ∷ [];
        },
      )
  unfolding handle_tree_announcement next_ordering select_new_parent_with_wait set_tree_announcement
      become_root set_parent spawn reparent_timer_expired
  parent_announcement_reselects frame r small clean fresh expired =
      let r' = record r { ordering = r.ordering + 1 } in
      rw (lt→ltb _ _ small) (
        check_clean-true (stamped w frame (r.ordering + 1)) r.parent r' clean
        ∙ accept-parent (stamped w frame (r.ordering + 1)) r' fresh expired)
