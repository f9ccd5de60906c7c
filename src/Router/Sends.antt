-- ===== src/Router/Sends.antt =====
-- `send` of src/router.rs and the methods that only send: what they change of the router.
use rust_pinecone.Prelude.{
  ◌≡◌, refl, ap, ◌∙◌, arith, List, [], ◌∷◌, Option-cases, inl, inr, Reply, ok, err, panic, M,
  and_then,
}
use rust_pinecone.Tree.{PublicKey}
use rust_pinecone.Frames.{Frame, TreeAnnouncement, tree_routed, snek_routed, tree_announcement}
use rust_pinecone.Frames.Announcement.{append_signature}
use rust_pinecone.Router.State.{
  Router, World, Task, send, send_self, send_to_local, log_error, for_each, spawn,
}
use rust_pinecone.Router.Ports.{port, peers}
use rust_pinecone.Router.Announce.{send_tree_announcement, send_tree_announcements_to_all}

-- The router without its outputs.
abbrev pub core : Router → Router
core r = record r { sent = []; delivered = []; spawned = [] }

pub spawn-core : (t : Task) (r : Router) → core (spawn t r).1 ≡ core r
unfolding spawn
spawn-core t r = refl

pub log_error-state : (x : Reply (Unit {0}) × Router) → (log_error x).1 ≡ x.1
log_error-state (ok u, r) = refl
log_error-state (err e, r) = refl
log_error-state (panic, r) = refl

pub and_then-core {ℓ} :
    {A B : Type ℓ} (x : Reply A × Router) (f : A → M Router B) (r : Router)
    → core x.1 ≡ core r
    → ((a : A) (s : Router) → core s ≡ core r → core (f a s).1 ≡ core r)
    → core (and_then x f).1 ≡ core r
and_then-core (ok a, s) f r h k = k a s h
and_then-core (err e, s) f r h k = h
and_then-core (panic, s) f r h k = h

pub for_each-core {ℓ} :
    {A : Type ℓ} (f : A → M Router (Unit {0})) (xs : List A) (r : Router)
    → ((a : A) (s : Router) → core (f a s).1 ≡ core s)
    → core (for_each f xs r).1 ≡ core r
unfolding for_each
for_each-core f [] r h = refl
for_each-core f (x ∷ xs) r h =
    and_then-core (f x r) (λ _. for_each f xs) r (h x r) λ _ s e. for_each-core f xs s h ∙ e

-- What holds of the state after the first part and of the one after both holds at the end.
module _ {A B : Type 0} where
  pub and_then-state :
      (P : Router → Type 0) (x : Reply A × Router) (f : A → M Router B)
      → P x.1
      → ((a : A) → P (f a x.1).1)
      → P (and_then x f).1
  and_then-state P (ok a, s) f h k = k a
  and_then-state P (err e, s) f h k = h
  and_then-state P (panic, s) f h k = h

module _ (w : World) where
  send_self-core : (f : Frame) (r : Router) → core (send_self w f r).1 ≡ core r
  unfolding send_self send_to_local
  send_self-core (tree_routed p) r = ground arith
  send_self-core (snek_routed p) r = ground arith
  send_self-core f r = refl

  pub send-core : (f : Frame) (to : PublicKey) (r : Router) → core (send w f to r).1 ≡ core r
  unfolding send
  send-core f to r = ground (arith, send_self-core f r)

  pub send_tree_announcement-core :
      (a : TreeAnnouncement) (to : PublicKey) (r : Router)
      → core (send_tree_announcement w a to r).1 ≡ core r
  unfolding send_tree_announcement
  send_tree_announcement-core a to r = elim (Option-cases (port r to)) [
    | inl e ↦ rw (e, send_tree_announcement) refl
    | inr (p, e) ↦
        rw (e, send_tree_announcement)
          (ap core (log_error-state _)
            ∙ send-core (tree_announcement (append_signature w.buffers w.crypto a r.private_key p))
                to r)
  ]

  pub send_tree_announcements_to_all-core :
      (a : TreeAnnouncement) (r : Router) → core (send_tree_announcements_to_all w a r).1 ≡ core r
  unfolding send_tree_announcements_to_all
  send_tree_announcements_to_all-core a r =
      for_each-core (send_tree_announcement w a) (peers r) r (send_tree_announcement-core a)
