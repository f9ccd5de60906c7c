-- ===== src/Router/Tracks/Tree.antt =====
-- The spanning tree's methods of src/router.rs do not touch paths.
use rust_pinecone.Prelude.{
  ◌≡◌, refl, sym, ap, subst, arith, Bool, true, false, ltb, ◌==◌, if◌then◌else◌, Option, none, some,
  Reply, ok, err, panic,
}
use rust_pinecone.Tree.{PublicKey}
use rust_pinecone.Frames.{TreeAnnouncement}
use rust_pinecone.Frames.Announcement.{is_clean}
use rust_pinecone.Router.State.{Router, World, next_sequence, next_ordering, sequence_max, spawn}
use rust_pinecone.Router.Announce.{
  set_parent, become_root, announcement_of, current_root, set_tree_announcement,
  current_announcement, new_tree_announcement, maintain_tree, send_tree_announcements_to_all,
  i_am_root,
}
use rust_pinecone.Router.ParentSelection.{
  claim_root, adopt_parent, best_parent, parent_selection, BestParent,
}
use rust_pinecone.Router.HandleAnnouncement.{
  select_new_parent_with_wait, from_parent, from_other, react, accept, is_replay, check_clean,
  stamped, handle_tree_announcement,
}
use rust_pinecone.Router.Sends.{send_tree_announcement-core, send_tree_announcements_to_all-core}
use rust_pinecone.Router.Tracks.{
  trail, HasTrail, IsTracked, Tracks, and_then-IsTracked, if-IsTracked,
  send_tree_announcements_to_all-Tracks,
}

if-state : (b : Bool) (r s : Router) → IsTracked r → IsTracked s → IsTracked (if b then r else s)
if-state true r s h k = h
if-state false r s h k = k

module _ (w : World) where
  claim_root-IsTracked : (r : Router) → IsTracked r → IsTracked (claim_root w r)
  unfolding claim_root become_root set_parent
  claim_root-IsTracked r v =
      if-state (ltb (current_root w r).public_key r.public_key) (record r { parent = r.public_key })
        r v v

  adopt_parent-Tracks : (p : Option PublicKey) → Tracks (adopt_parent w p)
  unfolding adopt_parent become_root set_parent
  adopt_parent-Tracks none r v = v
  adopt_parent-Tracks (some best) r v =
      if-IsTracked (best == r.parent) _ _ v
        (and_then-IsTracked _ _ (send_tree_announcements_to_all-Tracks w _ _ v) (λ _ s u. u))

  pub parent_selection-Tracks : Tracks (parent_selection w)
  unfolding parent_selection
  parent_selection-Tracks r v = go (best_parent w (claim_root w r)) refl
    where
      go :
          (x : Reply BestParent)
          → best_parent w (claim_root w r) ≡ x
          → IsTracked (parent_selection w r).1
      go (ok best) e =
          rw (e, parent_selection)
            (adopt_parent-Tracks best.peer (claim_root w r) (claim_root-IsTracked r v))
      go (err x) e = rw (e, parent_selection) (claim_root-IsTracked r v)
      go panic e = rw (e, parent_selection) (claim_root-IsTracked r v)

  new_tree_announcement-Tracks : Tracks (new_tree_announcement w)
  unfolding new_tree_announcement next_sequence
  new_tree_announcement-Tracks r v =
      and_then-IsTracked _ _ (if-IsTracked (ltb r.sequence sequence_max) _ _ v v) (λ n s u. u)

  pub maintain_tree-Tracks : Tracks (maintain_tree w)
  unfolding maintain_tree spawn
  maintain_tree-Tracks r v =
      and_then-IsTracked _ _
        (if-IsTracked (i_am_root r) _ _
          (and_then-IsTracked _ _ (new_tree_announcement-Tracks r v)
            (send_tree_announcements_to_all-Tracks w))
          v)
        (λ _ s u. u)

  to_all-trail :
      (a : TreeAnnouncement) (r : Router) → trail (send_tree_announcements_to_all w a r).1 ≡ trail r
  to_all-trail a r = ap trail (send_tree_announcements_to_all-core w a r)

  from_parent-trail : (a : TreeAnnouncement) (r : Router) → trail (from_parent w a r).1 ≡ trail r
  unfolding from_parent select_new_parent_with_wait become_root set_parent spawn
  from_parent-trail a r = ground (arith, to_all-trail (current_announcement w r) r)

  from_other-trail :
      (a : TreeAnnouncement) (from : PublicKey) (r : Router)
      → trail (from_other w a from r).1 ≡ trail r
  unfolding from_other set_parent spawn
  from_other-trail a from r = ground (
    arith,
    to_all-trail (current_announcement w (set_parent from r)) (set_parent from r),
    ap trail (send_tree_announcement-core w (current_announcement w r) from r),
  )

  react-trail :
      (a : TreeAnnouncement) (from : PublicKey) (r : Router) → trail (react w a from r).1 ≡ trail r
  unfolding react
  react-trail a from r = ground (arith, from_parent-trail a r, from_other-trail a from r)

  accept-Tracks : (a : TreeAnnouncement) (from : PublicKey) → Tracks (accept w a from)
  unfolding accept set_tree_announcement
  accept-Tracks a from r v =
      if-IsTracked (is_replay a (announcement_of r from)) (ok tt, r)
        (react w a from (set_tree_announcement from a r)) v
        (subst HasTrail (sym (react-trail a from (set_tree_announcement from a r))) v)

  check_clean-Tracks : (a : TreeAnnouncement) (from : PublicKey) → Tracks (check_clean w a from)
  unfolding check_clean
  check_clean-Tracks a from r v = go (is_clean w.buffers w.crypto a from) refl
    where
      go :
          (x : Reply Bool)
          → is_clean w.buffers w.crypto a from ≡ x
          → IsTracked (check_clean w a from r).1
      go (ok true) e = rw (e, check_clean) (accept-Tracks a from r v)
      go (ok false) e = rw (e, check_clean) v
      go (err x) e = rw (e, check_clean) v
      go panic e = rw (e, check_clean) v

  pub handle_tree_announcement-Tracks :
      (a : TreeAnnouncement) (from : PublicKey) → Tracks (handle_tree_announcement w a from)
  unfolding handle_tree_announcement next_ordering
  handle_tree_announcement-Tracks a from r v =
      and_then-IsTracked _ _ (if-IsTracked (ltb r.ordering sequence_max) _ _ v v)
        (λ order. check_clean-Tracks (stamped w a order) from)
