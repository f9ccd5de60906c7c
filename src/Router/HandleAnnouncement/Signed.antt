-- ===== src/Router/HandleAnnouncement/Signed.antt =====
-- `handle_tree_announcement` of src/router.rs: the signatures of what a router stores.
use rust_pinecone.Prelude.{
  ◌+◌, ◌≡◌, ◌≢◌, inl, inr, refl, sym, subst, Bool, true, false, [], All, ltb, Bool-cases, Reply, ok,
  err, panic,
}
use rust_pinecone.Prelude.Maps.{nat_eq, All-insert}
use rust_pinecone.Tree.{PublicKey}
use rust_pinecone.Bytes.{BytesMut}
use rust_pinecone.Frames.{TreeAnnouncement}
use rust_pinecone.Frames.Announcement.{Ed25519, signatures_clean, is_clean}
use rust_pinecone.Router.State.{Router, World, next_ordering, sequence_max}
use rust_pinecone.Router.Announce.{announcement_of, set_tree_announcement}
use rust_pinecone.Router.HandleAnnouncement.{
  is_replay, accept, check_clean, stamped, handle_tree_announcement,
}
use rust_pinecone.Router.HandleAnnouncement.Replay.{react-announcements}

-- No stored announcement is without signatures.
abbrev pub Signed : Router → Type 0
Signed r = All (λ (e : PublicKey × TreeAnnouncement). e.1.signatures ≢ []) r.announcements

is_clean-signed :
    (b : BytesMut) (c : Ed25519) (a : TreeAnnouncement) (peer : PublicKey)
    → is_clean b c a peer ≡ ok true
    → a.signatures ≢ []
unfolding is_clean signatures_clean
is_clean-signed b c a peer h e = absurd (cc (rw (e, signatures_clean) at h))

module _ (w : World) where
  accept-Signed :
      (frame : TreeAnnouncement) (from : PublicKey) (r : Router)
      → frame.signatures ≢ []
      → Signed r
      → Signed (accept w frame from r).1
  unfolding accept set_tree_announcement
  accept-Signed frame from r p h = elim (Bool-cases (is_replay frame (announcement_of r from))) [
    | inl replay ↦ rw (replay, accept) h
    | inr fresh ↦
        rw (fresh, accept)
          (subst (All (λ (e : PublicKey × TreeAnnouncement). e.1.signatures ≢ []))
            (sym (react-announcements w frame from (set_tree_announcement from frame r)))
            (All-insert (λ (a : TreeAnnouncement). a.signatures ≢ []) r.announcements from frame h
              p))
  ]

  check_clean-Signed :
      (frame : TreeAnnouncement) (from : PublicKey) (r : Router)
      → Signed r
      → Signed (check_clean w frame from r).1
  unfolding check_clean
  check_clean-Signed frame from r h = go (is_clean w.buffers w.crypto frame from) refl
    where
      go :
          (x : Reply Bool)
          → is_clean w.buffers w.crypto frame from ≡ x
          → Signed (check_clean w frame from r).1
      go (ok true) e =
          rw (e, check_clean) (accept-Signed frame from r (is_clean-signed _ _ frame from e) h)
      go (ok false) e = rw (e, check_clean) h
      go (err x) e = rw (e, check_clean) h
      go panic e = rw (e, check_clean) h

  -- If every stored announcement has a signature, then so has every one stored after
  -- `handle_tree_announcement`, whatever announcement it is given and however it ends.
  pub handle_tree_announcement-Signed :
      (frame : TreeAnnouncement) (from : PublicKey) (r : Router)
      → Signed r
      → Signed (handle_tree_announcement w frame from r).1
  unfolding handle_tree_announcement next_ordering
  handle_tree_announcement-Signed frame from r h = elim (Bool-cases (ltb r.ordering sequence_max)) [
    | inl small ↦ rw small (
        check_clean-Signed (stamped w frame (r.ordering + 1)) from
          (record r { ordering = r.ordering + 1 }) h)
    | inr full ↦ rw full h
  ]
