-- ===== src/Router/SnekHop/Progress.antt =====
-- `next_snek_hop` of src/router.rs: where its hops lead.
use rust_pinecone.Prelude.{
  ◌≡◌, sym, ◌⊎◌, inl, inr, refl, arith, Bool, true, false, not, ◌&&◌, ◌||◌, List, [], ◌∷◌, Option,
  none, some, ◌==◌, ==_iff, subst, if◌then◌else◌, Bool-cases, Option-cases, Holds, Holds-ok,
  bind_reply-Holds,
}
use mathlib.Core.List.{Memᴰ}
use rust_pinecone.Prelude.Maps.{HashMap}
use rust_pinecone.Tree.{PublicKey, RootAnnouncementSignature}
use rust_pinecone.Frames.{TreeAnnouncement}
use rust_pinecone.Snek.{SnekPathIndex, SnekPath, valid}
use rust_pinecone.Router.State.{Router, World}
use rust_pinecone.Router.Ports.{peers, get_peer_on_port}
use rust_pinecone.Router.Announce.{current_announcement, current_root}
use rust_pinecone.Router.SnekHop.Leads.{
  Nearer, Leads, tests-Fit, up_to_root, up_to_ancestor, over_announcer, to_peer, over_path,
}
use rust_pinecone.Router.SnekHop.{
  BestKey, dht_ordered, improves, consider, consider_all, consider_announcements, prefer_peers,
  consider_entry, consider_paths, start_upwards, consider_ancestors,
}

module _ (w : World) (r : Router) where
  module _ (dest : PublicKey) (bootstrap : Bool) where
    -- The key that a hop starts from: the root's, below the root, for keys between the own one and
    -- the root's and for a bootstrap for the own key; the own one else.
    unfoldable pub start_key : PublicKey
    start_key =
        if not (r.parent == r.public_key)
          && ((bootstrap && (r.public_key == dest))
              || dht_ordered r.public_key dest (current_root w r).public_key)
        then (current_root w r).public_key
        else r.public_key

  module _ (dest : PublicKey) (bootstrap traffic : Bool) where
    -- A hop that stays with the own key: there is none for traffic, but for the own destination, and
    -- else it is the router itself. Every other hop leads to the key.
    abbrev pub Led : Option PublicKey → PublicKey → Type 0
    Led hop key =
        ((key ≡ r.public_key)
          × ((hop ≡ (if traffic then none else some r.public_key))
              ⊎ ((hop ≡ some r.public_key) × (r.public_key ≡ dest))))
        ⊎ ((p : PublicKey) × (hop ≡ some p) × Leads w r bootstrap p key)

    abbrev pub Good : BestKey → Type 0
    Good best = Nearer dest (start_key dest bootstrap) best.key × Led best.peer best.key

    improves-Nearer :
        (from key best : PublicKey)
        → improves dest bootstrap key best ≡ true
        → Nearer dest from best
        → Nearer dest from key
    unfolding improves dht_ordered
    improves-Nearer from key best h g = ground arith

    consider-Good :
        (key p : PublicKey) (best : BestKey)
        → Leads w r bootstrap p key
        → Good best
        → Good (consider dest bootstrap key p best)
    unfolding consider
    consider-Good key p best l g = elim (Bool-cases (improves dest bootstrap key best.key)) [
      | inl better ↦
          rw (better, consider)
            (improves-Nearer (start_key dest bootstrap) key best.key better g.0, inr (p, refl, l))
      | inr worse ↦ rw (worse, consider) g
    ]

    consider_all-Good :
        (sigs : List RootAnnouncementSignature) (p : PublicKey) (best : BestKey)
        → ((s : RootAnnouncementSignature)
            → Memᴰ s sigs
            → Leads w r bootstrap p s.signing_public_key)
        → Good best
        → Good (consider_all dest bootstrap sigs p best)
    unfolding consider_all
    consider_all-Good [] p best l g = g
    consider_all-Good (s ∷ sigs) p best l g =
        consider_all-Good sigs p (consider dest bootstrap s.signing_public_key p best)
          (λ t m. l t (Memᴰ.tail m))
          (consider-Good s.signing_public_key p best (l s (Memᴰ.head refl)) g)

    pub consider_announcements-Good :
        (m : HashMap PublicKey TreeAnnouncement) (best : BestKey)
        → ((e : PublicKey × TreeAnnouncement) → Memᴰ e m → Memᴰ e r.announcements)
        → Good best
        → Good (consider_announcements dest bootstrap m best)
    unfolding consider_announcements
    consider_announcements-Good [] best inc g = g
    consider_announcements-Good ((p, a) ∷ m) best inc g =
        consider_announcements-Good m (consider_all dest bootstrap a.signatures p best)
          (λ e i. inc e (Memᴰ.tail i))
          (consider_all-Good a.signatures p best
            (λ s i. over_announcer p a s (inc (p, a) (Memᴰ.head refl)) i) g)

    pub prefer_peers-Good :
        (ps : List PublicKey) (best : BestKey)
        → ((p : PublicKey) → Memᴰ p ps → Memᴰ p (peers r))
        → Good best
        → Good (prefer_peers dest bootstrap ps best)
    unfolding prefer_peers
    prefer_peers-Good [] best inc g = g
    prefer_peers-Good (p ∷ ps) best inc g = elim (Bool-cases (best.key == p)) [
      | inl same ↦
          let eq = (==_iff best.key p).0 same in
          rw (same, prefer_peers)
            (prefer_peers-Good ps (record { key = p; peer = some p }) (λ q i. inc q (Memᴰ.tail i))
              (
                subst (Nearer dest (start_key dest bootstrap)) eq g.0,
                inr (p, refl, to_peer p (inc p (Memᴰ.head refl))),
              ))
      | inr other ↦
          rw (other, prefer_peers) (prefer_peers-Good ps best (λ q i. inc q (Memᴰ.tail i)) g)
    ]

    consider_entry-Good :
        (i : SnekPathIndex) (path : SnekPath) (best : BestKey)
        → Memᴰ (i, path) r.paths
        → Good best
        → Holds Good (consider_entry dest bootstrap w r i path best)
    unfolding consider_entry
    consider_entry-Good i path best m g = bind_reply-Holds Good (valid w.now path) _ λ fresh v.
        elim (Bool-cases (not fresh || (path.source == 0))) [
          | inl unfit ↦ rw unfit g
          | inr fit ↦ rw fit (elim (Bool-cases (not bootstrap && not path.active)) [
            | inl waits ↦ rw waits g
            | inr ready ↦
                rw ready (elim (Bool-cases (improves dest bootstrap i.public_key best.key)) [
                  | inr worse ↦ rw worse g
                  | inl better ↦ rw better (elim (Option-cases (get_peer_on_port r path.source)) [
                    | inl e ↦ rw e tt
                    | inr (p, e) ↦ rw e (
                      improves-Nearer (start_key dest bootstrap) i.public_key best.key better g.0,
                      inr (
                        p,
                        refl,
                        over_path i path p m (tests-Fit w r bootstrap path fresh v fit ready) e,
                      ),
                    )
                  ])
                ])
          ])
        ]

    pub consider_paths-Good :
        (m : HashMap SnekPathIndex SnekPath) (best : BestKey)
        → ((e : SnekPathIndex × SnekPath) → Memᴰ e m → Memᴰ e r.paths)
        → Good best
        → Holds Good (consider_paths dest bootstrap w r m best)
    unfolding consider_paths
    consider_paths-Good [] best inc g = g
    consider_paths-Good ((i, path) ∷ m) best inc g =
        bind_reply-Holds Good (consider_entry dest bootstrap w r i path best) _ λ best' e.
          consider_paths-Good m best' (λ x k. inc x (Memᴰ.tail k))
            (Holds-ok Good _ best'
              (consider_entry-Good i path best (inc (i, path) (Memᴰ.head refl)) g) e)

    abbrev own : BestKey
    own = record { key = r.public_key; peer = if traffic then none else some r.public_key }

    own-Led : Led own.peer r.public_key
    own-Led = inl (refl, inl refl)

    abbrev up : BestKey
    up = record { key = (current_root w r).public_key; peer = some r.parent }

    up_either : (c : Bool) → (if c then up else up) ≡ up
    up_either true = refl
    up_either false = refl

    -- Towards the root, or the own key.
    start_upwards-cases :
        (r.parent == r.public_key) ≡ false
        → ((start_upwards dest bootstrap w r own ≡ up)
            × ((start_key dest bootstrap) ≡ (current_root w r).public_key))
          ⊎ ((start_upwards dest bootstrap w r own ≡ own)
              × ((start_key dest bootstrap) ≡ r.public_key))
    unfolding start_upwards start_key
    start_upwards-cases child = elim (Bool-cases (bootstrap && (r.public_key == dest))) [
      | inl upwards ↦ inl (rw upwards (up_either _), rw (child, upwards) refl)
      | inr other ↦
          elim (Bool-cases (dht_ordered r.public_key dest (current_root w r).public_key)) [
            | inl above ↦ inl (rw (other, above) refl, rw (child, other, above) refl)
            | inr below ↦ inr (rw (other, below) refl, rw (child, other, below) refl)
          ]
    ]

    start_upwards-Good :
        (r.parent == r.public_key) ≡ false → Good (start_upwards dest bootstrap w r own)
    start_upwards-Good child = elim (start_upwards-cases child) [
      | inl (e, at) ↦ rw e (inl (sym at), inr (r.parent, refl, up_to_root))
      | inr (e, at) ↦ rw e (inl (sym at), own-Led)
    ]

    start_key-root : (r.parent == r.public_key) ≡ true → (start_key dest bootstrap) ≡ r.public_key
    unfolding start_key
    start_key-root e = rw e refl

    pub consider_ancestors-Good : Good (consider_ancestors dest bootstrap w r own)
    unfolding consider_ancestors
    consider_ancestors-Good = elim (Bool-cases (r.parent == r.public_key)) [
      | inl is_root ↦ rw (is_root, consider_ancestors) (inl (sym (start_key-root is_root)), own-Led)
      | inr child ↦
          rw (child, consider_ancestors)
            (consider_all-Good (current_announcement w r).signatures r.parent
              (start_upwards dest bootstrap w r own) (λ s m. up_to_ancestor s m)
              (start_upwards-Good child))
    ]
