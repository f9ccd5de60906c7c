-- ===== src/Router/State.antt =====
-- src/router.rs, `struct Router`, its constants, and the ways out of it. A method is a function of
-- the whole state that runs at one go; the tasks that it spawns are queued in `spawned`.
use rust_pinecone.Prelude.{
  ℕ, ◌+◌, ◌-◌, ◌*◌, ◌^◌, Bool, false, List, [], ◌∷◌, ◌++◌, Option, none, some, ltb, ◌==◌,
  if◌then◌else◌, Reply, ok, err, panic, M, and_then, RouterError,
}
use rust_pinecone.Prelude.Maps
use rust_pinecone.Prelude.Maps.{HashMap, nat_eq}
use rust_pinecone.Bytes.{BytesMut}
use rust_pinecone.Tree.{PublicKey, Port, SequenceNumber, SnekPathId}
use rust_pinecone.Frames.{Frame, TreeAnnouncement, snek_routed, tree_routed}
use rust_pinecone.Frames.Announcement.{Ed25519, SigningKey}
use rust_pinecone.Snek.{SnekPathIndex, SnekPath, second}
use rust_pinecone.WaitTimer.{WaitTimer}

abbrev pub announcement_timeout : ℕ
announcement_timeout = 45 * 60 * second

abbrev pub reparent_wait_time : ℕ
reparent_wait_time = second

abbrev pub sequence_max : ℕ
sequence_max = 2 ^ 64 - 1

-- What a router does not decide itself: the crates, the clock, the random path id, what the sink to
-- a peer answers (`none` is success), and whether the client still takes frames.
pub record World : Type 0 where
  pub buffers : BytesMut
  pub crypto : Ed25519
  pub now : ℕ
  pub path_id : SnekPathId
  pub link : PublicKey → Frame → Option RouterError
  pub client_open : Bool

-- The futures given to `tokio::spawn`, other than the loops that drive the router.
pub data Task : Type 0 where
  teardown_existing : Port → PublicKey → SnekPathId → Task
  reparenting : Bool → Task

-- What a loop waits for at its `await`: a frame of the client, or of a peer's connection.
pub data Waiting : Type 0 where
  for_client : Waiting
  for_peer : PublicKey → Waiting

-- `awaited` lists the loops that wait for a frame. `sent` and `delivered` list what went to peers and to the client, in order. The connections
-- themselves belong to `World`: a key is present where a connection is.
pub record Router : Type 0 where
  pub private_key : SigningKey
  pub public_key : PublicKey
  pub running : Bool
  pub upload_connections : HashMap PublicKey (Unit {0})
  pub download_connections : HashMap PublicKey (Unit {0})
  pub ports : HashMap Port (Option PublicKey)
  pub parent : PublicKey
  pub announcements : HashMap PublicKey TreeAnnouncement
  pub sequence : SequenceNumber
  pub ordering : SequenceNumber
  pub reparent_timer : Option WaitTimer
  pub ascending_path : Option SnekPath
  pub descending_path : Option SnekPath
  pub paths : HashMap SnekPathIndex SnekPath
  pub candidate : Option SnekPath
  pub sent : List (PublicKey × Frame)
  pub delivered : List Frame
  pub spawned : List Task
  pub awaited : List Waiting

unfoldable pub new_router : Ed25519 → SigningKey → Router
new_router c key = record {
  private_key = key;
  public_key = c.verification_key key;
  running = false;
  upload_connections = [];
  download_connections = [];
  ports = [];
  parent = c.verification_key key;
  announcements = [];
  sequence = 0;
  ordering = 0;
  reparent_timer = none;
  ascending_path = none;
  descending_path = none;
  paths = [];
  candidate = none;
  sent = [];
  delivered = [];
  spawned = [];
  awaited = [];
}

unfoldable pub spawn : Task → M Router (Unit {0})
spawn t r = (ok tt, record r { spawned = r.spawned ++ t ∷ [] })

unfoldable pub wait_for : Waiting → M Router (Unit {0})
wait_for t r = (ok tt, record r { awaited = r.awaited ++ t ∷ [] })

-- `if let Err(e) = … { debug!(…) }`
abbrev pub log_error : Reply (Unit {0}) × Router → Reply (Unit {0}) × Router
log_error (ok u, r) = (ok u, r)
log_error (err e, r) = (ok tt, r)
log_error (panic, r) = (panic, r)

unfoldable pub for_each {ℓ} :
    {A : Type ℓ} → (A → M Router (Unit {0})) → List A → M Router (Unit {0})
for_each f [] r = (ok tt, r)
for_each f (x ∷ xs) r = and_then (f x r) (λ _. for_each f xs)

module _ (w : World) where
  -- The channel's `unwrap` panics when the client is gone.
  unfoldable pub send_to_local : Frame → M Router (Unit {0})
  send_to_local frame r =
      if w.client_open
      then (ok tt, record r { delivered = r.delivered ++ frame ∷ [] })
      else (panic, r)

  -- Protocol frames to oneself are dropped.
  unfoldable pub send_self : Frame → M Router (Unit {0})
  send_self (snek_routed p) r = send_to_local (snek_routed p) r
  send_self (tree_routed p) r = send_to_local (tree_routed p) r
  send_self frame r = (ok tt, r)

  -- Frames to a peer without a connection are dropped.
  unfoldable pub send : Frame → PublicKey → M Router (Unit {0})
  send frame to r =
      if to == r.public_key then send_self frame r else elim (Maps.get r.upload_connections to) [
        | none ↦ (ok tt, r)
        | some _ ↦ elim (w.link to frame) [
          | none ↦ (ok tt, record r { sent = r.sent ++ (to, frame) ∷ [] })
          | some e ↦ (err e, r)
        ]
      ]

unfoldable pub next_sequence : M Router SequenceNumber
next_sequence r =
    if ltb r.sequence sequence_max
    then (ok (r.sequence + 1), record r { sequence = r.sequence + 1 })
    else (panic, r)

unfoldable pub next_ordering : M Router SequenceNumber
next_ordering r =
    if ltb r.ordering sequence_max
    then (ok (r.ordering + 1), record r { ordering = r.ordering + 1 })
    else (panic, r)
