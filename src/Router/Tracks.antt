-- ===== src/Router/Tracks.antt =====
-- The paths that a router of src/router.rs keeps: which entries the routing table, the ascending and
-- the descending path and the candidate can be, and rules for methods that keep them so.
pub mod Tree
pub mod Paths
pub mod Handlers
pub mod Setups
pub mod Upkeep
pub mod Peers
pub mod Reached
use rust_pinecone.Prelude.{
  ◌≡◌, refl, sym, ap, subst, ◌∙◌, arith, Bool, true, false, List, [], ◌∷◌, All, Option, none, some,
  if◌then◌else◌, Reply, ok, err, panic, M, and_then,
}
use rust_pinecone.Prelude.Maps.{HashMap}
use rust_pinecone.Tree.{PublicKey, Port}
use rust_pinecone.Frames.{Frame, TreeAnnouncement}
use rust_pinecone.Snek.{SnekPathIndex, SnekPath}
use rust_pinecone.Router.State.{Router, World, Task, send, log_error, for_each, spawn}
use rust_pinecone.Router.Sends.{
  core, send-core, log_error-state, send_tree_announcement-core,
  send_tree_announcements_to_all-core,
}
use rust_pinecone.Router.Announce.{send_tree_announcement, send_tree_announcements_to_all}
use rust_pinecone.Router.Bootstrap.{on_hop}
use rust_pinecone.Router.HandleFrame.{on_port, on_known_hop}

-- The router with nothing but its public key and its paths.
abbrev pub trail : Router → Router
trail r = record r {
  private_key = 0;
  running = false;
  upload_connections = [];
  download_connections = [];
  ports = [];
  parent = 0;
  announcements = [];
  sequence = 0;
  ordering = 0;
  reparent_timer = none;
  sent = [];
  delivered = [];
  spawned = [];
  awaited = [];
}

-- An entry stands under its own index.
abbrev pub Keyed : SnekPathIndex × SnekPath → Type 0
Keyed e = e.0 ≡ e.1.index

-- A path of this key that begins here.
abbrev pub Begins : PublicKey → Option SnekPath → Type 0
Begins key none = Unit {0}
Begins key (some p) = (p.index.public_key ≡ key) × (p.source ≡ 0) × (p.active ≡ true)

-- A path that ends here.
abbrev pub Ends : Option SnekPath → Type 0
Ends none = Unit {0}
Ends (some p) = (p.destination ≡ 0) × (p.active ≡ true)

pub record HasTrail (r : Router) : Type 0 where
  pub keyed : All Keyed r.paths
  pub ascending : Begins r.public_key r.ascending_path
  pub candidate : Begins r.public_key r.candidate
  pub descending : Ends r.descending_path

abbrev pub IsTracked : Router → Type 0
IsTracked r = HasTrail (trail r)

-- The method keeps it so, however it ends.
abbrev pub Tracks : {A : Type 0} → M Router A → Type 0
Tracks m = (r : Router) → IsTracked r → IsTracked (m r).1

pub core-IsTracked : (r s : Router) → core s ≡ core r → IsTracked r → IsTracked s
core-IsTracked r s e v = subst IsTracked (sym e) v

pub and_then-IsTracked :
    {A B : Type 0} (x : Reply A × Router) (f : A → M Router B)
    → IsTracked x.1
    → ((a : A) → Tracks (f a))
    → IsTracked (and_then x f).1
and_then-IsTracked (ok a, s) f h k = k a s h
and_then-IsTracked (err e, s) f h k = h
and_then-IsTracked (panic, s) f h k = h

pub if-IsTracked :
    {A : Type 0} (b : Bool) (x y : Reply A × Router)
    → IsTracked x.1
    → IsTracked y.1
    → IsTracked (if b then x else y).1
if-IsTracked true x y h k = h
if-IsTracked false x y h k = k

pub for_each-Tracks :
    {A : Type 0} (f : A → M Router (Unit {0})) (xs : List A)
    → ((a : A) → Tracks (f a))
    → Tracks (for_each f xs)
unfolding for_each
for_each-Tracks f [] h r v = v
for_each-Tracks f (x ∷ xs) h r v =
    and_then-IsTracked (f x r) (λ _. for_each f xs) (h x r v) (λ _. for_each-Tracks f xs h)

pub on_hop-Tracks :
    (x : Reply (Option PublicKey)) (f : PublicKey → M Router (Unit {0}))
    → ((peer : PublicKey) → Tracks (f peer))
    → Tracks (on_hop x f)
on_hop-Tracks (ok none) f h r v = v
on_hop-Tracks (ok (some peer)) f h r v = h peer r v
on_hop-Tracks (err e) f h r v = v
on_hop-Tracks panic f h r v = v

pub on_known_hop-Tracks :
    (x : Reply (Option PublicKey)) (f : PublicKey → M Router (Unit {0}))
    → ((peer : PublicKey) → Tracks (f peer))
    → Tracks (on_known_hop x f)
on_known_hop-Tracks (ok none) f h r v = v
on_known_hop-Tracks (ok (some peer)) f h r v = h peer r v
on_known_hop-Tracks (err e) f h r v = v
on_known_hop-Tracks panic f h r v = v

pub on_port-Tracks :
    (x : Option Port) (f : Port → M Router (Unit {0}))
    → ((p : Port) → Tracks (f p))
    → Tracks (on_port x f)
on_port-Tracks none f h r v = v
on_port-Tracks (some p) f h r v = h p r v

pub spawn-Tracks : (t : Task) → Tracks (spawn t)
unfolding spawn
spawn-Tracks t r v = v

module _ (w : World) where
  pub send-Tracks : (f : Frame) (to : PublicKey) → Tracks (send w f to)
  send-Tracks f to r = core-IsTracked r (send w f to r).1 (send-core w f to r)

  pub log_send-Tracks : (f : Frame) (to : PublicKey) → Tracks (λ r. log_error (send w f to r))
  log_send-Tracks f to r v =
      subst IsTracked (sym (log_error-state (send w f to r))) (send-Tracks f to r v)

  pub send_tree_announcement-Tracks :
      (a : TreeAnnouncement) (to : PublicKey) → Tracks (send_tree_announcement w a to)
  send_tree_announcement-Tracks a to r =
      core-IsTracked r (send_tree_announcement w a to r).1 (send_tree_announcement-core w a to r)

  pub send_tree_announcements_to_all-Tracks :
      (a : TreeAnnouncement) → Tracks (send_tree_announcements_to_all w a)
  send_tree_announcements_to_all-Tracks a r =
      core-IsTracked r (send_tree_announcements_to_all w a r).1
        (send_tree_announcements_to_all-core w a r)
