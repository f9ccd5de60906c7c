-- ===== src/Router/Keeps/Handlers.antt =====
-- `handle_frame` of src/router.rs: it leaves keys, connections and ports alone, and every stored
-- announcement has a signature as before.
use rust_pinecone.Prelude.{
  ◌+◌, ◌≡◌, ◌≢◌, refl, ap, sym, subst, arith, Bool, true, false, Bool-cases, ltb, ◌==◌, [], inl,
  inr, Reply, ok, err, panic, M, All,
}
use rust_pinecone.Tree.{PublicKey, Port}
use rust_pinecone.Frames.{
  Frame, TreeAnnouncement, SnekSetup, tree_routed, snek_routed, tree_announcement, snek_bootstrap,
  snek_bootstrap_ack, snek_setup, snek_setup_ack, snek_teardown,
}
use rust_pinecone.Frames.Announcement.{is_clean}
use rust_pinecone.Router.State.{Router, World, send_to_local, next_ordering, sequence_max}
use rust_pinecone.Router.Announce.{announcement_of, set_tree_announcement}
use rust_pinecone.Router.HandleAnnouncement.{
  handle_tree_announcement, check_clean, accept, is_replay, stamped,
}
use rust_pinecone.Router.HandleAnnouncement.Signed.{Signed, handle_tree_announcement-Signed}
use rust_pinecone.Router.Ports.{port}
use rust_pinecone.Router.TreeHop.{next_tree_hop}
use rust_pinecone.Router.Setup.{handle_setup}
use rust_pinecone.Router.HandleFrame.{on_port, on_known_hop, route, handle_snek_setup, handle_frame}
use rust_pinecone.Router.Keeps.{
  held, Keeps, if-held, on_hop-held, on_port-held, on_known_hop-held, send-held,
}
use rust_pinecone.Router.Keeps.Tree.{react-held}
use rust_pinecone.Router.Keeps.Paths.{
  handle_bootstrap-held, handle_bootstrap_ack-held, handle_setup-held, handle_setup_ack-held,
  handle_teardown-held,
}

-- The router with nothing but its keys, connections and ports.
abbrev pub links : Router → Router
links r = record (held r) { announcements = [] }

-- What every method but those on peers keeps.
abbrev pub Kept : Router → Router → Type 0
Kept r s = (links s ≡ links r) × (Signed r → Signed s)

pub held-Kept : (r s : Router) → held s ≡ held r → Kept r s
held-Kept r s e = (
  ap links e,
  subst (λ x. All (λ (e : PublicKey × TreeAnnouncement). e.1.signatures ≢ []) x)
      (ap (λ x. x.announcements) (sym e)),
)

module _ (w : World) where
  accept-links :
      (a : TreeAnnouncement) (from : PublicKey) (r : Router) → links (accept w a from r).1 ≡ links r
  unfolding accept set_tree_announcement
  accept-links a from r = elim (Bool-cases (is_replay a (announcement_of r from))) [
    | inl replay ↦ rw (replay, accept) refl
    | inr new ↦ rw (new, accept) (ap links (react-held w a from (set_tree_announcement from a r)))
  ]

  check_clean-links :
      (a : TreeAnnouncement) (from : PublicKey) (r : Router)
      → links (check_clean w a from r).1 ≡ links r
  unfolding check_clean
  check_clean-links a from r = go (is_clean w.buffers w.crypto a from) refl
    where
      go :
          (x : Reply Bool)
          → is_clean w.buffers w.crypto a from ≡ x
          → links (check_clean w a from r).1 ≡ links r
      go (ok true) e = rw (e, check_clean) (accept-links a from r)
      go (ok false) e = rw (e, check_clean) refl
      go (err x) e = rw (e, check_clean) refl
      go panic e = rw (e, check_clean) refl

  handle_tree_announcement-links :
      (a : TreeAnnouncement) (from : PublicKey) (r : Router)
      → links (handle_tree_announcement w a from r).1 ≡ links r
  unfolding handle_tree_announcement next_ordering
  handle_tree_announcement-links a from r = elim (Bool-cases (ltb r.ordering sequence_max)) [
    | inl small ↦ rw small (
        check_clean-links (stamped w a (r.ordering + 1)) from
          (record r { ordering = r.ordering + 1 }))
    | inr full ↦ rw full refl
  ]

  send_to_local-held : (f : Frame) → Keeps (send_to_local w f)
  unfolding send_to_local
  send_to_local-held f r = ground arith

  route-held : (f : Frame) (peer : PublicKey) → Keeps (route w f peer)
  unfolding route
  route-held f peer r =
      if-held (peer == r.public_key) _ _ r (send_to_local-held f r) (send-held w f peer r)

  abbrev over_hop : SnekSetup → Port → PublicKey → M Router (Unit {0})
  over_hop setup p hop t = on_port (port t hop) (λ q u. handle_setup w p setup q u) t

  over_hop-held : (setup : SnekSetup) (p : Port) (hop : PublicKey) → Keeps (over_hop setup p hop)
  over_hop-held setup p hop t =
      on_port-held (port t hop) (λ q u. handle_setup w p setup q u)
        (λ q. handle_setup-held w p setup q) t

  handle_snek_setup-held :
      (setup : SnekSetup) (from : PublicKey) → Keeps (handle_snek_setup w setup from)
  unfolding handle_snek_setup
  handle_snek_setup-held setup from r =
      on_port-held (port r from)
        (λ p s. on_known_hop (next_tree_hop w s setup.destination from) (over_hop setup p) s)
        (λ p s.
          on_known_hop-held (next_tree_hop w s setup.destination from) (over_hop setup p)
            (over_hop-held setup p) s)
        r

  pub handle_frame-Kept :
      (f : Frame) (from : PublicKey) (r : Router) → Kept r (handle_frame w f from r).1
  unfolding handle_frame
  handle_frame-Kept (tree_routed packet) from r =
      held-Kept r (handle_frame w (tree_routed packet) from r).1 (on_hop-held _ _ (route-held _) r)
  handle_frame-Kept (snek_routed packet) from r =
      held-Kept r (handle_frame w (snek_routed packet) from r).1 (on_hop-held _ _ (route-held _) r)
  handle_frame-Kept (tree_announcement a) from r =
      (handle_tree_announcement-links a from r, handle_tree_announcement-Signed w a from r)
  handle_frame-Kept (snek_bootstrap bootstrap) from r =
      held-Kept r (handle_frame w (snek_bootstrap bootstrap) from r).1 (
        on_known_hop-held _ _
          (λ hop s.
            if-held (hop == s.public_key) _ _ s (handle_bootstrap-held w _ s) (send-held w _ hop s))
          r)
  handle_frame-Kept (snek_bootstrap_ack ack) from r =
      held-Kept r (handle_frame w (snek_bootstrap_ack ack) from r).1 (
        on_hop-held _ _
          (λ hop s.
            if-held (hop == s.public_key) _ _ s (handle_bootstrap_ack-held w _ s)
              (send-held w _ hop s))
          r)
  handle_frame-Kept (snek_setup setup) from r =
      held-Kept r (handle_frame w (snek_setup setup) from r).1 (handle_snek_setup-held setup from r)
  handle_frame-Kept (snek_setup_ack ack) from r =
      held-Kept r (handle_frame w (snek_setup_ack ack) from r).1
        (on_port-held _ _ (λ p s. handle_setup_ack-held w p ack s) r)
  handle_frame-Kept (snek_teardown teardown) from r =
      held-Kept r (handle_frame w (snek_teardown teardown) from r).1
        (on_port-held _ _ (λ p s. handle_teardown-held w p teardown s) r)
