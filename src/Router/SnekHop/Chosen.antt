-- ===== src/Router/SnekHop/Chosen.antt =====
-- `next_snek_hop` of src/router.rs: which key it chooses, and where the hop leads.
use rust_pinecone.Prelude.{
  ap, ap, ◌≡◌, ◌≢◌, ◌⊎◌, inl, inr, refl, sym, subst, arith, Bool, true, not, ◌&&◌, List, [], ◌∷◌,
  Option, none, some, ◌==◌, ==_iff, if◌then◌else◌, Bool-cases, All, ok, Holds, Holds-ok,
  bind_reply-Holds,
}
use rust_pinecone.Tree.{PublicKey}
use rust_pinecone.Router.State.{Router, World}
use rust_pinecone.Router.Ports.{peers}
use rust_pinecone.Router.Announce.{current_announcement}
use rust_pinecone.Router.SnekHop.Leads.{Nearer}
use rust_pinecone.Router.SnekHop.Progress.{
  Good, Led, start_key, consider_ancestors-Good, consider_announcements-Good, prefer_peers-Good,
  consider_paths-Good,
}
use rust_pinecone.Router.SnekHop.Closest.{
  Passed, Onward, AllSigners, AllSigners-Onward, consider_all-Passed, AllAnnounced,
  AllAnnounced-Onward, consider_announcements-Onward, consider_announcements-Passed,
  prefer_peers_key,
}
use rust_pinecone.Router.SnekHop.Weighs.{AllPaths, WeighsAll, consider_paths-WeighsAll}
use rust_pinecone.Router.SnekHop.Direct.{Direct, prefer_peers-IsDirect, consider_paths-IsDirect}
use rust_pinecone.Router.SnekHop.{
  BestKey, dht_ordered, consider_announcements, prefer_peers, start_upwards, consider_paths,
  consider_ancestors, next_snek_hop,
}

module _ (w : World) (r : Router) (dest : PublicKey) (bootstrap traffic : Bool) where
  -- Of all the keys that the router knows of and may use, that of the hop is the best.
  pub record Chooses (hop : Option PublicKey) : Type 0 where
    pub key : PublicKey
    pub near : Nearer dest (start_key w r dest bootstrap) key
    pub led : Led w r dest bootstrap traffic hop key
    pub direct : Direct w r dest bootstrap hop key
    pub ancestors :
        (r.parent ≡ r.public_key)
        ⊎ AllSigners dest bootstrap key (current_announcement w r).signatures
    pub announced : AllAnnounced dest bootstrap key r.announcements
    pub paths : AllPaths w r dest bootstrap key r.paths

  abbrev Ancestors : PublicKey → Type 0
  Ancestors key =
      (r.parent ≡ r.public_key)
      ⊎ AllSigners dest bootstrap key (current_announcement w r).signatures

  consider_ancestors-Ancestors :
      (best : BestKey) → Ancestors (consider_ancestors dest bootstrap w r best).key
  unfolding consider_ancestors
  consider_ancestors-Ancestors best = elim (Bool-cases (r.parent == r.public_key)) [
    | inl is_root ↦ inl ((==_iff r.parent r.public_key).0 is_root)
    | inr child ↦
        rw (child, consider_ancestors)
          (inr (
            consider_all-Passed dest bootstrap (current_announcement w r).signatures r.parent
              (start_upwards dest bootstrap w r best)))
  ]

  Ancestors-Onward :
      (from to : PublicKey) → Onward dest bootstrap from to → Ancestors from → Ancestors to
  Ancestors-Onward from to on (inl e) = inl e
  Ancestors-Onward from to on (inr g) =
      inr (AllSigners-Onward dest bootstrap from to (current_announcement w r).signatures on g)

  abbrev own : BestKey
  own = record { key = r.public_key; peer = if traffic then none else some r.public_key }

  abbrev scanned : BestKey
  scanned = prefer_peers dest bootstrap (peers r) (
      consider_announcements dest bootstrap r.announcements
        (consider_ancestors dest bootstrap w r own))

  scanned-Good : Good w r dest bootstrap traffic scanned
  scanned-Good =
      prefer_peers-Good w r dest bootstrap traffic (peers r) _ (λ p m. m)
        (consider_announcements-Good w r dest bootstrap traffic r.announcements _ (λ e m. m)
          (consider_ancestors-Good w r dest bootstrap traffic))

  -- The last scan, on top of the others.
  finish :
      (best : BestKey)
      → consider_paths dest bootstrap w r r.paths scanned ≡ ok best
      → Chooses best.peer
  finish best e =
      let first = consider_ancestors dest bootstrap w r own in
      let second = consider_announcements dest bootstrap r.announcements first in
      let good =
        Holds-ok (Good w r dest bootstrap traffic) _ best
          (consider_paths-Good w r dest bootstrap traffic r.paths scanned (λ x m. m) (scanned-Good))
          e in
      let weighs =
        Holds-ok (WeighsAll w r dest bootstrap r.paths scanned) _ best
          (consider_paths-WeighsAll w r dest bootstrap r.paths scanned) e in
      let on : Onward dest bootstrap second.key best.key = λ k g. weighs.0 k (
        subst (λ x. Passed dest bootstrap x k)
          (sym (prefer_peers_key dest bootstrap (peers r) second)) g) in
      record {
        key = best.key;
        near = good.0;
        led = good.1;
        direct =
            Holds-ok (λ x. Direct w r dest bootstrap x.peer x.key) _ best
              (consider_paths-IsDirect w r dest bootstrap r.paths scanned (λ x m. m)
                (prefer_peers-IsDirect w r dest bootstrap second))
              e;
        ancestors =
            Ancestors-Onward first.key best.key
              (λ k g. on k (consider_announcements-Onward dest bootstrap r.announcements first k g))
              (consider_ancestors-Ancestors own);
        announced =
            AllAnnounced-Onward dest bootstrap second.key best.key r.announcements on
              (consider_announcements-Passed dest bootstrap r.announcements first);
        paths = weighs.1;
      }

  All-every : {A : Type 0} (P : A → Type 0) (xs : List A) → ((x : A) → P x) → All P xs
  All-every P [] h = tt
  All-every P (x ∷ xs) h = (h x, All-every P xs h)

  -- The destination has passed every key.
  at_dest : (key k : PublicKey) → key ≡ dest → Passed dest bootstrap key k
  at_dest key k e = ground arith

  own_start :
      (not bootstrap && (r.public_key == dest)) ≡ true → r.public_key ≡ start_key w r dest bootstrap
  unfolding start_key dht_ordered
  own_start h = ground arith

  loopback : (not bootstrap && (r.public_key == dest)) ≡ true → Chooses (some r.public_key)
  loopback h =
      let here : r.public_key ≡ dest = ground arith in
      record {
        key = r.public_key;
        near = inl (own_start h);
        led = inl (refl, inr (refl, here));
        direct = inl (All-every _ (peers r) (λ p. own_or_other p));
        ancestors = inr (All-every _ (current_announcement w r).signatures (λ s. at_dest _ _ here));
        announced =
            All-every _ r.announcements (λ e. All-every _ e.1.signatures (λ s. at_dest _ _ here));
        paths = All-every _ r.paths (λ e. inr (at_dest _ _ here));
      }
    where
      own_or_other : (p : PublicKey) → (p ≢ r.public_key) ⊎ (some r.public_key ≡ some p)
      own_or_other p = elim (Bool-cases (p == r.public_key)) [
        | inl same ↦ inr (ap some (sym ((==_iff p r.public_key).0 same)))
        | inr other ↦ inl (λ e. cc ((==_iff p r.public_key).1 e, other))
      ]

  -- Where key routing ends without an error or a panic, it has chosen a key: the key it starts
  -- from (the root's, at a router that is not the root, for a destination strictly between its
  -- own key and the root's and for a bootstrap for its own key; its own else), the destination's,
  -- or one strictly between the two. No ancestor (unless the router is the root), no signer of a
  -- stored announcement, and no path that is not expired, does not start at the router and is
  -- active or the frame a bootstrap, has a key strictly between the destination's and the chosen
  -- one; and unless the frame is a bootstrap the chosen key is the destination's if one of them
  -- has it. The result leads to the chosen key: it is the parent for the root or an ancestor, a
  -- peer that announced it as a signer, the peer with this key, or the peer on the port that such
  -- a path with this key came by; or the chosen key is the router's own, and the result is no hop
  -- for traffic, the router itself else, and the router itself where it is the destination. And
  -- it is the peer with the chosen key, where there is one, or the peer on the port of such a
  -- path.
  pub next_snek_hop-Chooses : Holds Chooses (next_snek_hop dest bootstrap w r traffic)
  unfolding next_snek_hop
  next_snek_hop-Chooses = elim (Bool-cases (not bootstrap && (r.public_key == dest))) [
    | inl here ↦ rw here (loopback here)
    | inr away ↦
        rw away
          (bind_reply-Holds Chooses (consider_paths dest bootstrap w r r.paths scanned) _ finish)
  ]
