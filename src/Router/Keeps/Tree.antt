-- ===== src/Router/Keeps/Tree.antt =====
-- The spanning tree's methods of src/router.rs: they leave keys, connections, ports and, but for the
-- one that stores an announcement, the stored announcements alone.
use rust_pinecone.Prelude.{◌≡◌, refl, ◌∙◌, arith, ◌==◌, Option, none, some, Reply, ok, err, panic}
use rust_pinecone.Tree.{PublicKey}
use rust_pinecone.Frames.{TreeAnnouncement}
use rust_pinecone.Router.State.{Router, World, next_sequence, spawn}
use rust_pinecone.Router.Announce.{
  set_parent, become_root, current_announcement, new_tree_announcement, maintain_tree, i_am_root,
}
use rust_pinecone.Router.ParentSelection.{
  claim_root, adopt_parent, best_parent, parent_selection, BestParent,
}
use rust_pinecone.Router.HandleAnnouncement.{
  select_new_parent_with_wait, from_parent, from_other, react,
}
use rust_pinecone.Router.Keeps.{
  held, Keeps, and_then-held, if-held, send_tree_announcement-held,
  send_tree_announcements_to_all-held,
}

module _ (w : World) where
  claim_root-held : (r : Router) → held (claim_root w r) ≡ held r
  unfolding claim_root become_root set_parent
  claim_root-held r = ground arith

  adopt_parent-held : (p : Option PublicKey) → Keeps (adopt_parent w p)
  unfolding adopt_parent become_root set_parent
  adopt_parent-held none r = refl
  adopt_parent-held (some best) r =
      if-held (best == r.parent) _ _ r refl
        (and_then-held _ _ r (send_tree_announcements_to_all-held w _ _) (λ _ s. refl))

  pub parent_selection-held : Keeps (parent_selection w)
  unfolding parent_selection
  parent_selection-held r = go (best_parent w (claim_root w r)) refl
    where
      go :
          (x : Reply BestParent)
          → best_parent w (claim_root w r) ≡ x
          → held (parent_selection w r).1 ≡ held r
      go (ok best) e =
          rw (e, parent_selection)
            (adopt_parent-held best.peer (claim_root w r) ∙ claim_root-held r)
      go (err x) e = rw (e, parent_selection) (claim_root-held r)
      go panic e = rw (e, parent_selection) (claim_root-held r)

  new_tree_announcement-held : Keeps (new_tree_announcement w)
  unfolding new_tree_announcement next_sequence
  new_tree_announcement-held r = ground arith

  pub maintain_tree-held : Keeps (maintain_tree w)
  unfolding maintain_tree spawn
  maintain_tree-held r =
      and_then-held _ _ r
        (if-held (i_am_root r) _ _ r
          (and_then-held _ _ r (new_tree_announcement-held r)
            (send_tree_announcements_to_all-held w))
          refl)
        (λ _ s. refl)

  from_parent-held : (a : TreeAnnouncement) → Keeps (from_parent w a)
  unfolding from_parent select_new_parent_with_wait become_root set_parent spawn
  from_parent-held a r =
      ground (arith, send_tree_announcements_to_all-held w (current_announcement w r) r)

  from_other-held : (a : TreeAnnouncement) (from : PublicKey) → Keeps (from_other w a from)
  unfolding from_other set_parent spawn
  from_other-held a from r = ground (
    arith,
    send_tree_announcements_to_all-held w (current_announcement w (set_parent from r))
        (set_parent from r),
    send_tree_announcement-held w (current_announcement w r) from r,
  )

  pub react-held : (a : TreeAnnouncement) (from : PublicKey) → Keeps (react w a from)
  unfolding react
  react-held a from r = ground (arith, from_parent-held a r, from_other-held a from r)
