-- ===== src/Router/Bootstrap/Candidate.antt =====
-- `handle_bootstrap_ack` of src/router.rs: which acknowledgements lead to a candidate.
use rust_pinecone.Prelude.{
  ◌<◌, ◌≡◌, ◌⊎◌, inl, inr, refl, ap, ◌∙◌, arith, Bool, true, false, not, ◌&&◌, ◌||◌, [], ◌∷◌,
  Option, none, some, ltb, ◌==◌, ==_self, ==_iff, if◌then◌else◌, Bool-cases, Option-cases, Reply,
  ok, err, panic, Holds, Holds-ok, bind_reply-Holds,
}
use rust_pinecone.Prelude.Maps
use rust_pinecone.Prelude.Maps.{HashMap, get-insert}
use rust_pinecone.Tree.{PublicKey, Port, root_eq}
use rust_pinecone.Tree.Order.{root_eq_iff}
use rust_pinecone.Frames.{SnekBootstrapAck, snek_setup}
use rust_pinecone.Snek.{SnekPathIndex, SnekPath, index_Eq, valid}
use rust_pinecone.Router.State.{Router, World, send, log_error}
use rust_pinecone.Router.Ports.{port}
use rust_pinecone.Router.Announce.{current_root}
use rust_pinecone.Router.Sends.{
  core, spawn-core, log_error-state, send-core, and_then-core, and_then-state,
}
use rust_pinecone.Router.SnekHop.{dht_ordered}
use rust_pinecone.Router.TreeHop.{next_tree_hop}
use rust_pinecone.Router.Bootstrap.{
  accepts_ack, setup_for, new_path, drop_old, install, install_path, set_up, handle_bootstrap_ack,
}

module _ (w : World) (ack : SnekBootstrapAck) where
  -- The node that acknowledges has a higher key, or is the one that the ascending path leads to.
  abbrev pub Above : Router → Type 0
  Above r =
      (r.public_key < ack.source_key)
      ⊎ ((asc : SnekPath) × (r.ascending_path ≡ some asc) × (asc.origin ≡ ack.source_key))

  -- A new path over the network, not active yet, has become the candidate of `s`.
  pub record IsSetUp (r s : Router) : Type 0 where
    pub path : SnekPath
    pub set : s.candidate ≡ some (record path { active = true })
    pub stored : Maps.get s.paths path.index ≡ some path
    pub inactive : path.active ≡ false
    pub begins_here : path.source ≡ 0
    pub own_key : path.index.public_key ≡ r.public_key
    pub path_id : path.index.path_id ≡ ack.path_id
    pub target : path.target ≡ ack.source_key
    pub same_root : path.root ≡ current_root w r
    pub above : Above r

  -- The ascending path stays; the candidate and the routing table do too, or there is such a path.
  abbrev pub SetsUp : Router → Router → Type 0
  SetsUp r s =
      (s.ascending_path ≡ r.ascending_path)
      × (((s.candidate ≡ r.candidate) × (s.paths ≡ r.paths)) ⊎ IsSetUp r s)

  same_core : (r s : Router) → core s ≡ core r → SetsUp r s
  same_core r s e = (
    ap (λ (x : Router). x.ascending_path) e,
    inl (ap (λ (x : Router). x.candidate) e, ap (λ (x : Router). x.paths) e),
  )

  abbrev Accepted : Router → Bool → Type 0
  Accepted r b = b ≡ true → (ack.root ≡ current_root w r) × Above r

  accepts_ack-cases :
      (P : Bool → Type 0) (r : Router)
      → ((b : Bool) → Accepted r b → P b)
      → Holds P (accepts_ack w ack r)
  unfolding accepts_ack dht_ordered
  accepts_ack-cases P r f = elim (Bool-cases (ack.source_key == r.public_key)) [
    | inl us ↦ rw (us, accepts_ack) (f false λ h. absurd (cc h))
    | inr other ↦
        rw (other, accepts_ack)
          (elim (Bool-cases (root_eq ack.root (current_root w r))) [
            | inr differs ↦ rw differs (f false λ h. absurd (cc h))
            | inl same ↦
                let root = (root_eq_iff ack.root (current_root w r)).0 same in
                rw same (elim (Option-cases r.ascending_path) [
                  | inl e ↦ rw e (f _ λ h. (root, inl (ground arith)))
                  | inr (asc, e) ↦ rw e (
                      bind_reply-Holds P (valid w.now asc) _
                        λ fresh v. f _ λ h. (root, above asc e fresh h))
                ])
          ])
  ]
    where
      above :
          (asc : SnekPath)
          → r.ascending_path ≡ some asc
          → (fresh : Bool)
          → (if fresh
              then ((asc.origin == ack.source_key) && not (ack.path_id == asc.index.path_id))
                || (ltb r.public_key ack.source_key && ltb ack.source_key asc.origin)
              else ltb r.public_key ack.source_key)
            ≡ true
          → Above r
      above asc e true h = elim (Bool-cases (asc.origin == ack.source_key)) [
        | inl same ↦ inr (asc, e, (==_iff _ _).0 same)
        | inr differs ↦ inl (ground arith)
      ]
      above asc e false h = inl (ground arith)

  drop_old-core :
      (key : PublicKey) (m : HashMap SnekPathIndex SnekPath) (r : Router)
      → core (drop_old w key m r).1 ≡ core r
  unfolding drop_old
  drop_old-core key [] r = refl
  drop_old-core key ((index, entry) ∷ rest) r =
      elim (Bool-cases ((entry.source == 0) && not (index.public_key == key))) [
        | inl old ↦
            rw (old, drop_old)
              (and_then-core _ (λ _. drop_old w key rest) r (spawn-core _ r)
                λ _ s e. drop_old-core key rest s ∙ e)
        | inr new ↦ rw (new, drop_old) (drop_old-core key rest r)
      ]

  installed :
      (p : Port) (r s t : Router)
      → core s ≡ core r
      → core t ≡ core r
      → ack.root ≡ current_root w r
      → Above r
      → SetsUp r (install w (new_path w ack p s) t).1
  unfolding install new_path
  installed p r s t e k root above = (
    ap (λ (x : Router). x.ascending_path) k,
    inr (record {
      path = new_path w ack p s;
      set = refl;
      stored =
          get-insert t.paths index index (new_path w ack p s)
          ∙ rw (==_self s.public_key, ==_self ack.path_id);
      inactive = refl;
      begins_here = refl;
      own_key = ap (λ (x : Router). x.public_key) e;
      path_id = refl;
      target = refl;
      same_root = root;
      above = above;
    }),
  )
    where
      index : SnekPathIndex
      index = record { public_key = s.public_key; path_id = ack.path_id }

  install_path-SetsUp :
      (next_peer : PublicKey) (r s : Router)
      → core s ≡ core r
      → ack.root ≡ current_root w r
      → Above r
      → SetsUp r (install_path w ack next_peer s).1
  unfolding install_path install new_path
  install_path-SetsUp next_peer r s e root above = elim (Option-cases (port s next_peer)) [
    | inl unknown ↦ rw (unknown, install_path) (same_core r s e)
    | inr (p, known) ↦
        rw (known, install_path)
          (and_then-state (SetsUp r) (drop_old w ack.source_key s.paths s) _
            (same_core r _ (drop_old-core ack.source_key s.paths s ∙ e))
            λ _. installed p r s _ e (drop_old-core ack.source_key s.paths s ∙ e) root above)
  ]

  set_up-SetsUp : (r : Router) → ack.root ≡ current_root w r → Above r → SetsUp r (set_up w ack r).1
  unfolding set_up setup_for
  set_up-SetsUp r root above = go (next_tree_hop w r ack.source_coordinates r.public_key) refl
    where
      go :
          (x : Reply (Option PublicKey))
          → next_tree_hop w r ack.source_coordinates r.public_key ≡ x
          → SetsUp r (set_up w ack r).1
      go (ok none) e = rw (e, set_up) (same_core r r refl)
      go (err x) e = rw (e, set_up) (same_core r r refl)
      go panic e = rw (e, set_up) (same_core r r refl)
      go (ok (some next_peer)) e =
          rw (e, set_up)
            (elim (Bool-cases (r.public_key == next_peer)) [
              | inl us ↦ rw us (same_core r r refl)
              | inr other ↦ rw other (
                  let x = log_error (send w (snek_setup (setup_for w ack r)) next_peer r) in
                  let sent : core x.1 ≡ core r =
                    ap core (log_error-state (send w (snek_setup (setup_for w ack r)) next_peer r))
                    ∙ send-core w (snek_setup (setup_for w ack r)) next_peer r in
                  and_then-state (SetsUp r) x (λ _. install_path w ack next_peer)
                    (same_core r x.1 sent) λ _. install_path-SetsUp next_peer r x.1 sent root above)
            ])

  -- However `handle_bootstrap_ack` ends, the ascending path stays; and the candidate and the
  -- routing table stay too, or an inactive path of the own key that begins here, leads to the
  -- acknowledging node and has this router's current root stands in the routing table and, as
  -- active, is the candidate, where that node has a higher key than this router or is the one
  -- that the ascending path leads to.
  pub handle_bootstrap_ack-SetsUp : (r : Router) → SetsUp r (handle_bootstrap_ack w ack r).1
  unfolding handle_bootstrap_ack
  handle_bootstrap_ack-SetsUp r = go (accepts_ack w ack r) refl
    where
      go : (x : Reply Bool) → accepts_ack w ack r ≡ x → SetsUp r (handle_bootstrap_ack w ack r).1
      go (ok true) e =
          let (root, above) =
            Holds-ok (Accepted r) _ true (accepts_ack-cases (Accepted r) r (λ b h. h)) e refl in
          rw (e, handle_bootstrap_ack) (set_up-SetsUp r root above)
      go (ok false) e = rw (e, handle_bootstrap_ack) (same_core r r refl)
      go (err x) e = rw (e, handle_bootstrap_ack) (same_core r r refl)
      go panic e = rw (e, handle_bootstrap_ack) (same_core r r refl)
