-- ===== src/Router/Schedule/Connect.antt =====
-- `handle_frame`, `connect` and `add_peer` of src/router.rs: a state in which connections and ports fit
-- together stays one.
use rust_pinecone.Prelude.{
  ◌≡◌, ◌≢◌, inl, inr, refl, ◌∙◌, arith, Bool, false, ==_self, Option-cases, Option, none, some,
  last?, Reply, ok, err, panic, RouterError,
}
use rust_pinecone.Prelude.Maps
use rust_pinecone.Prelude.Maps.{nat_eq, get, insert, remove, get-insert, contains_key}
use rust_pinecone.Tree.{PublicKey, Port}
use rust_pinecone.Frames.{Frame, TreeAnnouncement, tree_announcement}
use rust_pinecone.Router.State.{Router, World}
use rust_pinecone.Router.Sends.{and_then-state}
use rust_pinecone.Router.Ports.Fresh.{get_new_port_total}
use rust_pinecone.Router.Announce.{send_tree_announcement, current_announcement}
use rust_pinecone.Router.HandleFrame.{
  add_peer, first_announcement, first_frame, connect, handle_frame,
}
use rust_pinecone.Router.Keeps.{send_tree_announcement-held}
use rust_pinecone.Router.Keeps.Handlers.{handle_frame-Kept}
use rust_pinecone.Router.Schedule.Links.{insert-Linked, reserve-Linked, connect-Linked}
use rust_pinecone.Router.Schedule.Peers.{IsValid, Kept-IsValid, held-IsValid, if-IsValid}

module _ (w : World) where
  pub handle_frame-IsValid :
      (f : Frame) (from : PublicKey) (r : Router) → IsValid r → IsValid (handle_frame w f from r).1
  handle_frame-IsValid f from r =
      Kept-IsValid r (handle_frame w f from r).1 (handle_frame-Kept w f from r)

  add_peer-IsValid :
      (peer : PublicKey) (p : Port) (first : Bool) (r : Router)
      → p ≢ 0
      → get r.ports p ≡ some (some peer)
      → IsValid r
      → IsValid (add_peer w peer p first r).1
  unfolding add_peer
  add_peer-IsValid peer p first r lo own v =
      let added = record r {
        upload_connections = insert r.upload_connections peer tt;
        download_connections = insert r.download_connections peer tt;
        ports = insert r.ports p (some peer);
      } in
      let ok_added : IsValid added = (
        connect-Linked p peer (get-insert r.ports p p (some peer) ∙ rw (==_self p) refl)
            (insert-Linked p peer lo (λ other h. cc (own, h)) v.0),
        v.1,
      ) in
      if-IsValid (Maps.contains_key r.download_connections peer) (ok tt, r) _ v
        (if-IsValid (Maps.contains_key r.upload_connections peer) (ok tt, r) _ v
          (if-IsValid first (send_tree_announcement w (current_announcement w added) peer added)
            (ok tt, added)
            (held-IsValid added
              (send_tree_announcement w (current_announcement w added) peer added).1
              (send_tree_announcement-held w (current_announcement w added) peer added) ok_added)
            ok_added))

  first_announcement-IsValid :
      (p : Port) (a : TreeAnnouncement) (r : Router)
      → p ≢ 0
      → get r.ports p ≡ some none
      → IsValid r
      → IsValid (first_announcement w p a r).1
  unfolding first_announcement
  first_announcement-IsValid p a r lo free v = elim (Option-cases (last? a.signatures)) [
    | inl e ↦ rw (e, first_announcement) v
    | inr (s, e) ↦
        let key = s.signing_public_key in
        let t = record r { ports = insert r.ports p (some key) } in
        let u =
          add_peer-IsValid key p false t lo
            (get-insert r.ports p p (some key) ∙ rw (==_self p) refl)
            (insert-Linked p key lo (λ other h. absurd (cc (free, h))) v.0, v.1) in
        rw (e, first_announcement)
          (and_then-state IsValid (add_peer w key p false t) _ u (λ _.
            and_then-state IsValid
              (handle_frame w (tree_announcement a) key (add_peer w key p false t).1) _
              (handle_frame-IsValid (tree_announcement a) key (add_peer w key p false t).1 u)
              (λ _. handle_frame-IsValid (tree_announcement a) key (add_peer w key p false t).1 u)))
  ]

  first_frame-IsValid :
      (p : Port) (reply : Option (Reply Frame)) (r : Router)
      → p ≢ 0
      → get r.ports p ≡ some none
      → IsValid r
      → IsValid (first_frame w p reply r).1
  unfolding first_frame
  first_frame-IsValid p none r lo free v = v
  first_frame-IsValid p (some (ok (tree_announcement a))) r lo free v =
      first_announcement-IsValid p a r lo free v
  first_frame-IsValid p (some (ok frame)) r lo free v = v
  first_frame-IsValid p (some (err e)) r lo free v = v
  first_frame-IsValid p (some panic) r lo free v = v

  -- What follows the sink's answer.
  answered-IsValid :
      (p : Port) (x : Option RouterError) (reply : Option (Reply Frame)) (r : Router)
      → p ≢ 0
      → get r.ports p ≡ some none
      → IsValid r
      → IsValid
          (elim x as (λ _. Reply PublicKey × Router) [
            | some e ↦ (err e, r)
            | none ↦ first_frame w p reply r
          ]).1
  answered-IsValid p none reply r lo free v = first_frame-IsValid p reply r lo free v
  answered-IsValid p (some e) reply r lo free v = v

  pub connect-IsValid :
      (sink : Frame → Option RouterError) (reply : Option (Reply Frame)) (r : Router)
      → IsValid r
      → IsValid (connect w sink reply r).1
  unfolding connect
  connect-IsValid sink reply r v =
      let (p, e, lo, free, below) = get_new_port_total r in
      let s = record r { ports = insert r.ports p none } in
      let reserved : IsValid s =
        (reserve-Linked p (λ zero_port. absurd (omega arith)) free v.0, v.1) in
      rw (e, connect)
        (answered-IsValid p _ reply s (λ zero_port. absurd (omega arith))
          (get-insert r.ports p p none ∙ rw (==_self p) refl) reserved)
