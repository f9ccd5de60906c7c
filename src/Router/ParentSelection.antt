-- ===== src/Router/ParentSelection.antt =====
-- src/router.rs, `parent_selection`: choosing the parent in the spanning tree.
pub mod Best
use rust_pinecone.Prelude.{
  ℕ, ◌≡◌, Bool, true, false, List, [], ◌∷◌, Option, none, some, ltb, ◌==◌, if◌then◌else◌, Reply, ok,
  err, panic, M, and_then, bind_reply,
}
use rust_pinecone.Tree.{PublicKey, SequenceNumber, Root, root_lt}
use rust_pinecone.Frames.{TreeAnnouncement}
use rust_pinecone.Frames.Announcement.{is_loop_of_child}
use rust_pinecone.Snek.{elapsed}
use rust_pinecone.Router.State.{Router, World, sequence_max, announcement_timeout}
use rust_pinecone.Router.Ports.{peers}
use rust_pinecone.Router.Announce.{
  announcement_of, current_announcement, current_root, set_parent, become_root,
  send_tree_announcements_to_all,
}

-- The variables of the loop.
pub record BestParent : Type 0 where
  pub root : Root
  pub peer : Option PublicKey
  pub order : SequenceNumber

-- The comparisons in the body of the loop. Behind a stronger root the order is the new best one, so
-- the last test fails there.
unfoldable pub weigh_parent : PublicKey → TreeAnnouncement → BestParent → BestParent
weigh_parent peer a best =
    if root_lt best.root a.root
    then record { root = a.root; peer = some peer; order = a.receive_order }
    else if root_lt a.root best.root
    then best
    else if ltb a.receive_order best.order
    then record { root = a.root; peer = some peer; order = a.receive_order }
    else best

module _ (w : World) (r : Router) where
  -- An announcement that is too old, or that names this router, is passed over.
  unfoldable pub eligible : TreeAnnouncement → Reply Bool
  eligible a = bind_reply (elapsed w.now a.receive_time) λ age. ok (
      if ltb announcement_timeout age
      then false
      else if is_loop_of_child a r.public_key
      then false
      else true)

  unfoldable pub parent_step : PublicKey → BestParent → Reply BestParent
  parent_step peer best = elim (announcement_of r peer) [
    | none ↦ ok best
    | some a ↦ bind_reply (eligible a) λ fit. ok (if fit then weigh_parent peer a best else best)
  ]

  unfoldable pub parent_loop : List PublicKey → BestParent → Reply BestParent
  parent_loop [] best = ok best
  parent_loop (peer ∷ rest) best = bind_reply (parent_step peer best) (parent_loop rest)

module _ (w : World) where
  -- With a stronger key than the current root's the router first becomes root itself.
  unfoldable pub claim_root : Router → Router
  claim_root r = if ltb (current_root w r).public_key r.public_key then become_root r else r

  unfoldable pub adopt_parent : Option PublicKey → M Router Bool
  adopt_parent none r = (ok false, become_root r)
  adopt_parent (some best) r =
      if best == r.parent
      then (ok false, r)
      else (let r' = set_parent best r in
          and_then (send_tree_announcements_to_all w (current_announcement w r') r')
            λ _ s. (ok true, s))

  unfoldable pub best_parent : Router → Reply BestParent
  best_parent r =
      parent_loop w r (peers r)
        (record { root = current_root w r; peer = none; order = sequence_max })

  -- `true` says that there is a new parent, so that the caller bootstraps.
  unfoldable pub parent_selection : M Router Bool
  parent_selection r =
      let r' = claim_root r in
      elim (best_parent r') [
        | ok best ↦ adopt_parent best.peer r'
        | err e ↦ (err e, r')
        | panic ↦ (panic, r')
      ]
