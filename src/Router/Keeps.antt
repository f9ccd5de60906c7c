-- ===== src/Router/Keeps.antt =====
-- src/router.rs: what the methods of the protocol leave alone, that is the keys, the connections, the
-- ports and the stored announcements. Those methods only send, choose a parent and keep paths.
pub mod Tree
pub mod Paths
pub mod Upkeep
pub mod Handlers
use rust_pinecone.Prelude.{
  ◌≡◌, refl, ap, ◌∙◌, arith, Bool, true, false, List, [], ◌∷◌, Option, none, some, Option-cases,
  inl, inr, Reply, ok, err, panic, M, and_then, if◌then◌else◌,
}
use rust_pinecone.Tree.{PublicKey, Port}
use rust_pinecone.Router.State.{Router, World, Task, send, log_error, for_each, spawn}
use rust_pinecone.Router.Sends.{
  core, send-core, log_error-state, send_tree_announcement-core,
  send_tree_announcements_to_all-core,
}
use rust_pinecone.Frames.{Frame, TreeAnnouncement}
use rust_pinecone.Router.Announce.{send_tree_announcement, send_tree_announcements_to_all}
use rust_pinecone.Router.Bootstrap.{on_hop}
use rust_pinecone.Router.HandleFrame.{on_port, on_known_hop}

-- The router with nothing but its keys, connections, ports and announcements.
abbrev pub held : Router → Router
held r = record r {
  running = false;
  parent = 0;
  sequence = 0;
  ordering = 0;
  reparent_timer = none;
  ascending_path = none;
  descending_path = none;
  paths = [];
  candidate = none;
  sent = [];
  delivered = [];
  spawned = [];
  awaited = [];
}

-- The method leaves these alone, however it ends.
abbrev pub Keeps : {A : Type 0} → M Router A → Type 0
Keeps m = (r : Router) → held (m r).1 ≡ held r

module _ {A B : Type 0} where
  pub and_then-held :
      (x : Reply A × Router) (f : A → M Router B) (r : Router)
      → held x.1 ≡ held r
      → ((a : A) → Keeps (f a))
      → held (and_then x f).1 ≡ held r
  and_then-held (ok a, s) f r h k = k a s ∙ h
  and_then-held (err e, s) f r h k = h
  and_then-held (panic, s) f r h k = h

pub if-held :
    {A : Type 0} (b : Bool) (x y : Reply A × Router) (r : Router)
    → held x.1 ≡ held r
    → held y.1 ≡ held r
    → held (if b then x else y).1 ≡ held r
if-held true x y r h k = h
if-held false x y r h k = k

pub for_each-held :
    {A : Type 0} (f : A → M Router (Unit {0})) (xs : List A)
    → ((a : A) → Keeps (f a))
    → Keeps (for_each f xs)
unfolding for_each
for_each-held f [] h r = refl
for_each-held f (x ∷ xs) h r =
    and_then-held (f x r) (λ _. for_each f xs) r (h x r) (λ _. for_each-held f xs h)

pub on_hop-held :
    (x : Reply (Option PublicKey)) (f : PublicKey → M Router (Unit {0}))
    → ((peer : PublicKey) → Keeps (f peer))
    → Keeps (on_hop x f)
on_hop-held (ok none) f h r = refl
on_hop-held (ok (some peer)) f h r = h peer r
on_hop-held (err e) f h r = refl
on_hop-held panic f h r = refl

pub on_known_hop-held :
    (x : Reply (Option PublicKey)) (f : PublicKey → M Router (Unit {0}))
    → ((peer : PublicKey) → Keeps (f peer))
    → Keeps (on_known_hop x f)
on_known_hop-held (ok none) f h r = refl
on_known_hop-held (ok (some peer)) f h r = h peer r
on_known_hop-held (err e) f h r = refl
on_known_hop-held panic f h r = refl

pub on_port-held :
    (x : Option Port) (f : Port → M Router (Unit {0}))
    → ((p : Port) → Keeps (f p))
    → Keeps (on_port x f)
on_port-held none f h r = refl
on_port-held (some p) f h r = h p r

module _ (w : World) where
  pub send-held : (f : Frame) (to : PublicKey) → Keeps (send w f to)
  send-held f to r = ap held (send-core w f to r)

  pub log_send-held : (f : Frame) (to : PublicKey) → Keeps (λ r. log_error (send w f to r))
  log_send-held f to r = ap held (log_error-state (send w f to r)) ∙ send-held f to r

  pub send_tree_announcement-held :
      (a : TreeAnnouncement) (to : PublicKey) → Keeps (send_tree_announcement w a to)
  send_tree_announcement-held a to r = ap held (send_tree_announcement-core w a to r)

  pub send_tree_announcements_to_all-held :
      (a : TreeAnnouncement) → Keeps (send_tree_announcements_to_all w a)
  send_tree_announcements_to_all-held a r = ap held (send_tree_announcements_to_all-core w a r)
