-- ===== src/Router/HandleFrame/Refused.antt =====
-- `connect` of src/router.rs, where the connection does not come about.
use rust_pinecone.Prelude.{
  ◌≡◌, ◌≢◌, refl, Bool, true, false, Option, none, some, Reply, ok, err, panic, RouterError,
}
use rust_pinecone.Prelude.Maps.{nat_eq, insert, contains_key}
use rust_pinecone.Tree.{Port, PublicKey}
use rust_pinecone.Frames.{Frame, tree_announcement}
use rust_pinecone.Router.State.{Router, World}
use rust_pinecone.Router.Ports.Fresh.{get_new_port_total}
use rust_pinecone.Router.HandleFrame.{first_frame, connect}

-- What the stream yields first is no announcement.
unfoldable pub opens_badly : Option (Reply Frame) → Bool
opens_badly (some (ok (tree_announcement a))) = false
opens_badly reply = true

module _ (w : World) where
  first_frame_bad :
      (p : Port) (reply : Option (Reply Frame)) (r : Router)
      → opens_badly reply ≡ true
      → ((first_frame w p reply r).1 ≡ r)
        × ((key : PublicKey) → (first_frame w p reply r).0 ≢ ok key)
  unfolding first_frame opens_badly
  first_frame_bad p none r h = (refl, λ key e. absurd (cc e))
  first_frame_bad p (some (ok (tree_announcement a))) r h = absurd (cc h)
  first_frame_bad p (some (ok frame)) r h = (refl, λ key e. absurd (cc e))
  first_frame_bad p (some (err x)) r h = (refl, λ key e. absurd (cc e))
  first_frame_bad p (some panic) r h = (refl, λ key e. absurd (cc e))

  answered_bad :
      (p : Port) (x : Option RouterError) (reply : Option (Reply Frame)) (r : Router)
      → opens_badly reply ≡ true
      → ((elim x as (λ _. Reply PublicKey × Router) [
        | some e ↦ (err e, r)
        | none ↦ first_frame w p reply r
      ]).1
          ≡ r)
        × ((key : PublicKey)
            → (elim x as (λ _. Reply PublicKey × Router) [
              | some e ↦ (err e, r)
              | none ↦ first_frame w p reply r
            ]).0
              ≢ ok key)
  answered_bad p none reply r h = first_frame_bad p reply r h
  answered_bad p (some x) reply r h = (refl, λ key e. absurd (cc e))

  -- Where the stream of a new connection does not begin with an announcement, `connect` does not
  -- succeed, whatever the sink answers, and the router is as before but for a port that had no
  -- entry and now has one without a peer.
  pub connect_refused :
      (sink : Frame → Option RouterError) (reply : Option (Reply Frame)) (r : Router)
      → opens_badly reply ≡ true
      → ((key : PublicKey) → (connect w sink reply r).0 ≢ ok key)
        × ((p : Port) × (contains_key r.ports p ≡ false)
            × ((connect w sink reply r).1 ≡ record r { ports = insert r.ports p none }))
  unfolding connect
  connect_refused sink reply r h =
      let (p, e, lo, free, below) = get_new_port_total r in
      let bad = answered_bad p _ reply (record r { ports = insert r.ports p none }) h in
      (rw (e, connect) bad.1, (p, free, rw (e, connect) bad.0))
