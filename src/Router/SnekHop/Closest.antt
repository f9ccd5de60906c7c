-- ===== src/Router/SnekHop/Closest.antt =====
-- `next_snek_hop` of src/router.rs: no key that the router knows of is passed over for a worse one.
use rust_pinecone.Prelude.{
  ◌≤◌, ◌≡◌, ◌≢◌, ◌⊎◌, inl, inr, refl, sym, ◌∙◌, arith, Bool, true, false, List, [], ◌∷◌, some, ◌==◌,
  ==_iff, Bool-cases, All,
}
use rust_pinecone.Prelude.Maps.{HashMap}
use rust_pinecone.Tree.{PublicKey, RootAnnouncementSignature}
use rust_pinecone.Frames.{TreeAnnouncement}
use rust_pinecone.Router.SnekHop.{
  BestKey, dht_ordered, improves, consider, consider_all, consider_announcements, prefer_peers,
}

module _ (dest : PublicKey) (bootstrap : Bool) where
  -- A key is not between the destination and the best key; and where it is the destination, so is the
  -- best key, unless the frame is a bootstrap.
  abbrev pub Passed : PublicKey → PublicKey → Type 0
  Passed best key =
      ((best ≤ key) ⊎ (key ≤ dest)) × ((bootstrap ≡ true) ⊎ ((key ≢ dest) ⊎ (best ≡ dest)))

  -- What the best key has passed, a better one has passed.
  abbrev pub Onward : PublicKey → PublicKey → Type 0
  Onward from to = (key : PublicKey) → Passed from key → Passed to key

  pub improves-Onward :
      (key best : PublicKey) → improves dest bootstrap key best ≡ true → Onward best key
  unfolding improves dht_ordered
  improves-Onward key best h other g = ground arith

  pub Passed-self : (key : PublicKey) → Passed key key
  Passed-self key = ground arith

  pub not_improves-Passed :
      (key best : PublicKey) → improves dest bootstrap key best ≡ false → Passed best key
  unfolding improves dht_ordered
  not_improves-Passed key best h = ground arith

  consider-Onward :
      (key p : PublicKey) (best : BestKey)
      → Onward best.key (consider dest bootstrap key p best).key
  unfolding consider
  consider-Onward key p best other g = elim (Bool-cases (improves dest bootstrap key best.key)) [
    | inl better ↦ rw (better, consider) (improves-Onward key best.key better other g)
    | inr worse ↦ rw (worse, consider) g
  ]

  consider-Passed :
      (key p : PublicKey) (best : BestKey) → Passed (consider dest bootstrap key p best).key key
  unfolding consider
  consider-Passed key p best = elim (Bool-cases (improves dest bootstrap key best.key)) [
    | inl better ↦ rw (better, consider) (Passed-self key)
    | inr worse ↦ rw (worse, consider) (not_improves-Passed key best.key worse)
  ]

  abbrev pub AllSigners : PublicKey → List RootAnnouncementSignature → Type 0
  AllSigners best = All (λ s. Passed best s.signing_public_key)

  pub AllSigners-Onward :
      (from to : PublicKey) (sigs : List RootAnnouncementSignature)
      → Onward from to
      → AllSigners from sigs
      → AllSigners to sigs
  AllSigners-Onward from to [] on g = g
  AllSigners-Onward from to (s ∷ sigs) on g =
      (on s.signing_public_key g.0, AllSigners-Onward from to sigs on g.1)

  consider_all-Onward :
      (sigs : List RootAnnouncementSignature) (p : PublicKey) (best : BestKey)
      → Onward best.key (consider_all dest bootstrap sigs p best).key
  unfolding consider_all
  consider_all-Onward [] p best other g = g
  consider_all-Onward (s ∷ sigs) p best other g =
      consider_all-Onward sigs p (consider dest bootstrap s.signing_public_key p best) other
        (consider-Onward s.signing_public_key p best other g)

  pub consider_all-Passed :
      (sigs : List RootAnnouncementSignature) (p : PublicKey) (best : BestKey)
      → AllSigners (consider_all dest bootstrap sigs p best).key sigs
  unfolding consider_all
  consider_all-Passed [] p best = tt
  consider_all-Passed (s ∷ sigs) p best =
      let first = consider dest bootstrap s.signing_public_key p best in
      (
        consider_all-Onward sigs p first s.signing_public_key
            (consider-Passed s.signing_public_key p best),
        consider_all-Passed sigs p first,
      )

  pub consider_announcements-Onward :
      (m : HashMap PublicKey TreeAnnouncement) (best : BestKey)
      → Onward best.key (consider_announcements dest bootstrap m best).key
  unfolding consider_announcements
  consider_announcements-Onward [] best other g = g
  consider_announcements-Onward ((p, a) ∷ m) best other g =
      consider_announcements-Onward m (consider_all dest bootstrap a.signatures p best) other
        (consider_all-Onward a.signatures p best other g)

  abbrev pub AllAnnounced : PublicKey → HashMap PublicKey TreeAnnouncement → Type 0
  AllAnnounced best = All (λ e. AllSigners best e.1.signatures)

  pub AllAnnounced-Onward :
      (from to : PublicKey) (m : HashMap PublicKey TreeAnnouncement)
      → Onward from to
      → AllAnnounced from m
      → AllAnnounced to m
  AllAnnounced-Onward from to [] on g = g
  AllAnnounced-Onward from to ((p, a) ∷ m) on g =
      (AllSigners-Onward from to a.signatures on g.0, AllAnnounced-Onward from to m on g.1)

  pub consider_announcements-Passed :
      (m : HashMap PublicKey TreeAnnouncement) (best : BestKey)
      → AllAnnounced (consider_announcements dest bootstrap m best).key m
  unfolding consider_announcements
  consider_announcements-Passed [] best = tt
  consider_announcements-Passed ((p, a) ∷ m) best =
      let first = consider_all dest bootstrap a.signatures p best in
      (
        AllSigners-Onward first.key (consider_announcements dest bootstrap m first).key a.signatures
            (consider_announcements-Onward m first) (consider_all-Passed a.signatures p best),
        consider_announcements-Passed m first,
      )

  pub prefer_peers_key :
      (ps : List PublicKey) (best : BestKey) → (prefer_peers dest bootstrap ps best).key ≡ best.key
  unfolding prefer_peers
  prefer_peers_key [] best = refl
  prefer_peers_key (p ∷ ps) best = elim (Bool-cases (best.key == p)) [
    | inl same ↦
        rw (same, prefer_peers)
          (prefer_peers_key ps (record { key = p; peer = some p })
            ∙ sym ((==_iff best.key p).0 same))
    | inr other ↦ rw (other, prefer_peers) (prefer_peers_key ps best)
  ]
