-- ===== src/Router/Setup/Activation.antt =====
-- `handle_setup_ack` of src/router.rs: what it changes.
use rust_pinecone.Prelude.{
  ◌≡◌, ◌⊎◌, inl, inr, refl, sym, ap, ◌∙◌, arith, true, [], ◌∷◌, map, none, some, ◌==◌,
  if◌then◌else◌, Bool-cases, Option-cases, Reply, ok, err, panic, M, and_then, Holds, Holds-ok,
}
use rust_pinecone.Prelude.Maps.{HashMap}
use rust_pinecone.Tree.{Port}
use rust_pinecone.Frames.{SnekSetupAck, snek_setup_ack}
use rust_pinecone.Snek.{SnekPathIndex, SnekPath, path_eq}
use rust_pinecone.Router.State.{Router, World}
use rust_pinecone.Router.Ports.{get_peer_on_port}
use rust_pinecone.Router.Sends.{core, log_error-state, send-core, and_then-state}
use rust_pinecone.Router.Setup.{awaits, forward_ack, promote, activate, handle_setup_ack}

-- An entry that waits for this acknowledgement becomes active, and any other one stays as it is.
abbrev pub activated :
    World → Port → SnekSetupAck → SnekPathIndex × SnekPath → SnekPathIndex × SnekPath
activated w from rx e = if awaits w e.0 e.1 from rx then (e.0, record e.1 { active = true }) else e

-- The ascending path and the candidate stay, or an active candidate becomes the ascending path.
abbrev pub Promotes : Router → Router → Type 0
Promotes r s =
    ((s.ascending_path ≡ r.ascending_path) × (s.candidate ≡ r.candidate))
    ⊎ ((c : SnekPath) × (r.candidate ≡ some c)
        × (c.active ≡ true)
        × (s.ascending_path ≡ some c)
        × (s.candidate ≡ none))

Promotes-trans : (r s t : Router) → Promotes r s → Promotes s t → Promotes r t
Promotes-trans r s t (inl (a, b)) (inl (c, d)) = inl (c ∙ a, d ∙ b)
Promotes-trans r s t (inl (a, b)) (inr (p, c, d, e, f)) = inr (p, sym b ∙ c, d, e, f)
Promotes-trans r s t (inr (p, c, d, e, f)) (inl (a, b)) = inr (p, c, d, a ∙ e, b ∙ f)
Promotes-trans r s t (inr (p, c, d, e, f)) (inr (q, c', d', e', f')) = absurd (cc (sym f ∙ c'))

path_eq→eq : (p q : SnekPath) → path_eq p q ≡ true → p ≡ q
path_eq→eq p q h = ground arith

promote-Promotes :
    (w : World) (entry : SnekPath) (r : Router)
    → entry.active ≡ true
    → Promotes r (promote w entry r)
unfolding promote
promote-Promotes w entry r h = elim (Option-cases r.candidate) [
  | inl e ↦ rw (e, promote) (inl (refl, e))
  | inr (c, e) ↦
      rw (e, promote)
        (elim (Bool-cases (path_eq entry c)) [
          | inl same ↦ rw same (
              let eq = path_eq→eq entry c same in
              inr (c, refl, sym (ap (λ (p : SnekPath). p.active) eq) ∙ h, ap some eq, refl))
          | inr other ↦ rw other (inl (refl, e))
        ])
]

module _ {A B : Type 0} where
  and_then-Holds :
      (P : B → Type 0) (x : Reply A × Router) (f : A → M Router B)
      → ((a : A) → x.0 ≡ ok a → Holds P (f a x.1).0)
      → Holds P (and_then x f).0
  and_then-Holds P (ok a, s) f h = h a refl
  and_then-Holds P (err e, s) f h = tt
  and_then-Holds P (panic, s) f h = tt

-- The last step of `handle_setup_ack`.
abbrev finish : Reply (HashMap SnekPathIndex SnekPath) × Router → Reply (Unit {0}) × Router
finish x = and_then x λ done s. (ok tt, record s { paths = done })

module _ (w : World) (from : Port) (rx : SnekSetupAck) where
  forward_ack-core : (entry : SnekPath) (r : Router) → core (forward_ack w entry rx r).1 ≡ core r
  unfolding forward_ack
  forward_ack-core entry r = elim (Bool-cases (entry.source == 0)) [
    | inl own ↦ rw (own, forward_ack) refl
    | inr other ↦
        rw (other, forward_ack)
          (elim (Option-cases (get_peer_on_port r entry.source)) [
            | inl e ↦ rw e refl
            | inr (peer, e) ↦
                rw e (ap core (log_error-state _) ∙ send-core w (snek_setup_ack rx) peer r)
          ])
  ]

  forward_ack-Promotes : (entry : SnekPath) (r : Router) → Promotes r (forward_ack w entry rx r).1
  forward_ack-Promotes entry r = inl (
    ap (λ (x : Router). x.ascending_path) (forward_ack-core entry r),
    ap (λ (x : Router). x.candidate) (forward_ack-core entry r),
  )

  activate-Promotes :
      (m : HashMap SnekPathIndex SnekPath) (r : Router) → Promotes r (activate w from rx m r).1
  unfolding activate
  activate-Promotes [] r = inl (refl, refl)
  activate-Promotes ((key, entry) ∷ rest) r = elim (Bool-cases (awaits w key entry from rx)) [
    | inl yes_it ↦
        let s = (forward_ack w entry rx r).1 in
        let active_entry : SnekPath = record entry { active = true } in
        let t = (activate w from rx rest (promote w active_entry s)).1 in
        let later : Promotes r t = Promotes-trans r s t (forward_ack-Promotes entry r) (
          Promotes-trans s (promote w active_entry s) t (promote-Promotes w active_entry s refl)
            (activate-Promotes rest (promote w active_entry s))) in
        rw (yes_it, activate)
          (and_then-state (Promotes r) (forward_ack w entry rx r) _ (forward_ack-Promotes entry r)
            λ _.
              and_then-state (Promotes r) (activate w from rx rest (promote w active_entry s)) _
                later λ done. later)
    | inr no_it ↦
        rw (no_it, activate)
          (and_then-state (Promotes r) (activate w from rx rest r) _ (activate-Promotes rest r)
            λ done. activate-Promotes rest r)
  ]

  -- The entries that come back are those that went in, activated where they wait.
  activate-activated :
      (m : HashMap SnekPathIndex SnekPath) (r : Router)
      → Holds (λ done. done ≡ map (activated w from rx) m) (activate w from rx m r).0
  unfolding activate
  activate-activated [] r = refl
  activate-activated ((key, entry) ∷ rest) r = elim (Bool-cases (awaits w key entry from rx)) [
    | inl yes_it ↦
        let s = (forward_ack w entry rx r).1 in
        let active_entry : SnekPath = record entry { active = true } in
        rw (yes_it, activate)
          (and_then-Holds _ (forward_ack w entry rx r) _ λ _ _.
            and_then-Holds _ (activate w from rx rest (promote w active_entry s)) _ λ done e.
              ap (λ l. (key, active_entry) ∷ l)
                (Holds-ok _ _ done (activate-activated rest (promote w active_entry s)) e))
    | inr no_it ↦
        rw (no_it, activate)
          (and_then-Holds _ (activate w from rx rest r) _
            λ done e. ap (λ l. (key, entry) ∷ l) (Holds-ok _ _ done (activate-activated rest r) e))
  ]

  -- Where a setup acknowledgement is handled without a panic, the routing table has the same
  -- entries in the same order, of which exactly those that wait for this acknowledgement are
  -- activated; and in any case the ascending path and the candidate both stay, or the candidate
  -- was an active path, becomes the ascending one and is cleared.
  pub handle_setup_ack_effect :
      (r : Router)
      → Holds
          (λ _. (handle_setup_ack w from rx r).1.paths ≡ map (activated w from rx) r.paths)
          (handle_setup_ack w from rx r).0
        × Promotes r (handle_setup_ack w from rx r).1
  unfolding handle_setup_ack
  handle_setup_ack_effect r =
      go (activate w from rx r.paths r) (activate-activated r.paths r) (activate-Promotes r.paths r)
    where
      go :
          (x : Reply (HashMap SnekPathIndex SnekPath) × Router)
          → Holds (λ done. done ≡ map (activated w from rx) r.paths) x.0
          → Promotes r x.1
          → Holds (λ _. (finish x).1.paths ≡ map (activated w from rx) r.paths) (finish x).0
            × Promotes r (finish x).1
      go (ok done, s) e p = (e, p)
      go (err e, s) h p = (tt, p)
      go (panic, s) h p = (tt, p)
