-- ===== src/Router/Teardown.antt =====
-- src/router.rs, tearing paths down: `teardown_path` and the methods that send teardowns.
pub mod Effect
pub mod Outputs
use rust_pinecone.Prelude.{
  ℕ, ◌≡◌, Bool, true, false, not, ◌&&◌, ◌||◌, List, [], ◌∷◌, Option, none, some, ltb, ◌==◌,
  if◌then◌else◌, Reply, ok, err, panic, M, and_then,
}
use rust_pinecone.Prelude.Maps
use rust_pinecone.Prelude.Maps.{HashMap}
use rust_pinecone.Tree.{PublicKey, Port, SnekPathId}
use rust_pinecone.Frames.{SnekTeardown, snek_teardown}
use rust_pinecone.Snek.{SnekPathIndex, SnekPath, index_eq, index_Eq}
use rust_pinecone.Router.State.{
  Router, World, send, log_error, for_each, spawn, Task, teardown_existing,
}
use rust_pinecone.Router.Ports.{get_peer_on_port}
use rust_pinecone.Router.Announce.{current_root}

-- The ascending or the descending path is the one that is torn down, as seen from port `from`.
unfoldable pub hits : Port → SnekPathIndex → Option SnekPath → Bool
hits from index none = false
hits from index (some p) = index_eq p.index index && ((from == p.destination) || (from == 0))

-- The loop over the routing table. `none`: no entry of this index that the port may tear down.
unfoldable pub next_hops :
    Port → SnekPathIndex → HashMap SnekPathIndex SnekPath → Option (List Port)
next_hops from index [] = none
next_hops from index ((key, value) ∷ rest) =
    if not (index_eq key index)
    then next_hops from index rest
    else if from == 0
    then some (value.destination ∷ value.source ∷ [])
    else if from == value.source
    then some (value.destination ∷ [])
    else if from == value.destination
    then some (value.source ∷ [])
    else next_hops from index rest

abbrev pub destination_of : Option SnekPath → List Port
destination_of none = []
destination_of (some p) = p.destination ∷ []

-- The ports that the teardown goes on to, and the router without the path.
unfoldable pub teardown_path : Port → SnekPathIndex → Router → List Port × Router
teardown_path from index r =
    let paths' = Maps.remove r.paths index in
    if hits from index r.ascending_path
    then (destination_of r.ascending_path, record r { paths = paths'; ascending_path = none })
    else if hits from index r.descending_path
    then (destination_of r.descending_path, record r { paths = paths'; descending_path = none })
    else elim (next_hops from index r.paths) [
      | none ↦ ([], r)
      | some hops ↦ (hops, record r { paths = paths' })
    ]

-- `self.send_teardown_for_existing_path`, which leaves the work to a task.
abbrev pub send_teardown_for_existing_path : Port → PublicKey → SnekPathId → M Router (Unit {0})
send_teardown_for_existing_path from key id = spawn (teardown_existing from key id)

module _ (w : World) where
  unfoldable pub get_teardown : PublicKey → SnekPathId → Router → SnekTeardown
  get_teardown key id r = record { root = current_root w r; destination_key = key; path_id = id }

  unfoldable pub send_teardown_via : SnekTeardown → Port → M Router (Unit {0})
  send_teardown_via frame via r = elim (get_peer_on_port r via) [
    | none ↦ (panic, r)
    | some peer ↦ log_error (send w (snek_teardown frame) peer r)
  ]

  unfoldable pub send_teardown_for_rejected_path :
      PublicKey → SnekPathId → Port → M Router (Unit {0})
  send_teardown_for_rejected_path key id via r = send_teardown_via (get_teardown key id r) via r

  -- The task of `send_teardown_for_existing_path`.
  unfoldable pub run_teardown : Port → PublicKey → SnekPathId → M Router (Unit {0})
  run_teardown from key id r =
      let frame = get_teardown key id r in
      let (hops, r') = teardown_path from (record { public_key = key; path_id = id }) r in
      for_each (send_teardown_via frame) hops r'

  unfoldable pub handle_teardown : Port → SnekTeardown → M Router (Unit {0})
  handle_teardown from rx r = (
    ok tt,
    (teardown_path from (record { public_key = rx.destination_key; path_id = rx.path_id }) r).1,
  )
