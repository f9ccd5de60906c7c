-- ===== src/Router/Bootstrap.antt =====
-- src/router.rs, `bootstrap_now`, `handle_bootstrap` and `handle_bootstrap_ack`: how a node looks for
-- the node with the next higher key.
pub mod Candidate
use rust_pinecone.Prelude.{
  Bool, true, false, not, ◌&&◌, ◌||◌, [], ◌∷◌, Option, none, some, ltb, ◌==◌, if◌then◌else◌, Reply,
  ok, err, panic, M, and_then, bind_reply,
}
use rust_pinecone.Prelude.Maps
use rust_pinecone.Prelude.Maps.{HashMap}
use rust_pinecone.Tree.{PublicKey, Port, Root, root_eq}
use rust_pinecone.Frames.{
  SnekBootstrap, SnekBootstrapAck, SnekSetup, snek_bootstrap, snek_bootstrap_ack, snek_setup,
}
use rust_pinecone.Snek.{SnekPathIndex, SnekPath, index_Eq, valid}
use rust_pinecone.Router.State.{Router, World, send, log_error}
use rust_pinecone.Router.Ports.{port}
use rust_pinecone.Router.Announce.{current_root, coordinates}
use rust_pinecone.Router.TreeHop.{next_tree_hop}
use rust_pinecone.Router.SnekHop.{next_snek_hop, dht_ordered}
use rust_pinecone.Router.Teardown.{send_teardown_for_existing_path}

abbrev pub has_root : Option SnekPath → Root → Bool
has_root none root = false
has_root (some p) root = root_eq p.root root

-- A later send over a hop that may be missing.
abbrev pub on_hop :
    Reply (Option PublicKey) → (PublicKey → M Router (Unit {0})) → M Router (Unit {0})
on_hop (ok none) f r = (ok tt, r)
on_hop (ok (some peer)) f r = f peer r
on_hop (err e) f r = (err e, r)
on_hop panic f r = (panic, r)

module _ (w : World) where
  unfoldable pub own_bootstrap : Router → SnekBootstrap
  own_bootstrap r = record {
    root = current_root w r;
    destination_key = r.public_key;
    source = coordinates w r;
    path_id = w.path_id;
  }

  unfoldable pub bootstrap_now : M Router (Unit {0})
  bootstrap_now r =
      if r.parent == r.public_key
      then (ok tt, r)
      else if has_root r.ascending_path (current_root w r)
      then (ok tt, r)
      else on_hop (next_snek_hop r.public_key true w r false)
          (λ peer s. log_error (send w (snek_bootstrap (own_bootstrap r)) peer s)) r

  unfoldable pub bootstrap_answer : SnekBootstrap → Router → SnekBootstrapAck
  bootstrap_answer frame r = record {
    destination_coordinates = frame.source;
    destination_key = frame.destination_key;
    source_coordinates = coordinates w r;
    source_key = r.public_key;
    root = current_root w r;
    path_id = frame.path_id;
  }

  unfoldable pub handle_bootstrap : SnekBootstrap → M Router (Unit {0})
  handle_bootstrap frame r =
      let ack = bootstrap_answer frame r in
      if root_eq (current_root w r) frame.root
      then on_hop (next_tree_hop w r ack.destination_coordinates r.public_key)
          (λ peer s. log_error (send w (snek_bootstrap_ack ack) peer s)) r
      else (ok tt, r)

  -- The conditions under which an acknowledgement leads to a new path.
  unfoldable pub accepts_ack : SnekBootstrapAck → Router → Reply Bool
  accepts_ack ack r =
      if ack.source_key == r.public_key
      then ok false
      else if not (root_eq ack.root (current_root w r))
      then ok false
      else elim r.ascending_path [
        | none ↦ ok (ltb r.public_key ack.source_key)
        | some asc ↦ bind_reply (valid w.now asc) λ fresh. ok (
            if fresh
            then ((asc.origin == ack.source_key) && not (ack.path_id == asc.index.path_id))
              || dht_ordered r.public_key ack.source_key asc.origin
            else ltb r.public_key ack.source_key)
      ]

  unfoldable pub setup_for : SnekBootstrapAck → Router → SnekSetup
  setup_for ack r = record {
    root = current_root w r;
    destination = ack.source_coordinates;
    destination_key = ack.source_key;
    source_key = r.public_key;
    path_id = ack.path_id;
  }

  unfoldable pub new_path : SnekBootstrapAck → Port → Router → SnekPath
  new_path ack p r = record {
    index = record { public_key = r.public_key; path_id = ack.path_id };
    origin = ack.source_key;
    target = ack.source_key;
    source = 0;
    destination = p;
    last_seen = w.now;
    root = ack.root;
    active = false;
  }

  -- Teardowns for the entries that begin here and are not the new node's.
  unfoldable pub drop_old : PublicKey → HashMap SnekPathIndex SnekPath → M Router (Unit {0})
  drop_old key [] r = (ok tt, r)
  drop_old key ((index, entry) ∷ rest) r =
      and_then
        (if (entry.source == 0) && not (index.public_key == key)
          then send_teardown_for_existing_path 0 index.public_key index.path_id r
          else (ok tt, r))
        λ _. drop_old key rest

  unfoldable pub install : SnekPath → M Router (Unit {0})
  install entry r = (
    ok tt,
    record r {
      paths = Maps.insert r.paths entry.index entry;
      candidate = some (record entry { active = true });
    },
  )

  unfoldable pub install_path : SnekBootstrapAck → PublicKey → M Router (Unit {0})
  install_path ack next_peer r = elim (port r next_peer) [
    | none ↦ (panic, r)
    | some p ↦ and_then (drop_old ack.source_key r.paths r) λ _. install (new_path ack p r)
  ]

  unfoldable pub set_up : SnekBootstrapAck → M Router (Unit {0})
  set_up ack r =
      let setup = setup_for ack r in
      on_hop (next_tree_hop w r setup.destination r.public_key)
        (λ next_peer s.
          if s.public_key == next_peer
          then (ok tt, s)
          else and_then (log_error (send w (snek_setup setup) next_peer s))
              λ _. install_path ack next_peer)
        r

  unfoldable pub handle_bootstrap_ack : SnekBootstrapAck → M Router (Unit {0})
  handle_bootstrap_ack ack r =
      and_then (accepts_ack ack r, r) λ update s. if update then set_up ack s else (ok tt, s)
