-- ===== src/Router/Setup.antt =====
-- src/router.rs, `handle_setup` and `handle_setup_ack`: installing a path hop by hop.
pub mod Activation
pub mod Descending
use rust_pinecone.Prelude.{
  Bool, true, false, not, ◌&&◌, ◌||◌, [], ◌∷◌, Option, none, some, ltb, ◌==◌, if◌then◌else◌, Reply,
  ok, panic, M, and_then, bind_reply,
}
use rust_pinecone.Prelude.Maps
use rust_pinecone.Prelude.Maps.{HashMap}
use rust_pinecone.Tree.{Port, root_eq}
use rust_pinecone.Frames.{SnekSetup, SnekSetupAck, snek_setup, snek_setup_ack}
use rust_pinecone.Snek.{SnekPathIndex, SnekPath, index_Eq, valid, path_eq}
use rust_pinecone.Router.State.{Router, World, send, log_error}
use rust_pinecone.Router.Ports.{get_peer_on_port}
use rust_pinecone.Router.Announce.{current_root}
use rust_pinecone.Router.SnekHop.{dht_ordered}
use rust_pinecone.Router.Teardown.{send_teardown_for_existing_path, send_teardown_for_rejected_path}

abbrev pub index_of : SnekSetup → SnekPathIndex
index_of rx = record { public_key = rx.source_key; path_id = rx.path_id }

module _ (w : World) where
  -- At the destination: whether the node that sets up becomes the descending node.
  unfoldable pub accepts_setup : SnekSetup → Router → Reply Bool
  accepts_setup rx r =
      if not (root_eq (current_root w r) rx.root)
      then ok false
      else if not (ltb rx.source_key r.public_key)
      then ok false
      else elim r.descending_path [
        | none ↦ ok (ltb rx.source_key r.public_key)
        | some desc ↦ bind_reply (valid w.now desc) λ fresh. ok (
            if fresh
            then ((desc.index.public_key == rx.source_key)
                && not (rx.path_id == desc.index.path_id))
              || dht_ordered desc.index.public_key rx.source_key r.public_key
            else ltb rx.source_key r.public_key)
      ]

  unfoldable pub descending_entry : SnekSetup → Port → SnekPath
  descending_entry rx from = record {
    index = index_of rx;
    origin = rx.source_key;
    target = rx.destination_key;
    source = from;
    destination = 0;
    last_seen = w.now;
    root = rx.root;
    active = true;
  }

  unfoldable pub transit_entry : SnekSetup → Port → Port → SnekPath
  transit_entry rx from next_hop = record {
    index = index_of rx;
    origin = rx.source_key;
    target = rx.destination_key;
    source = from;
    destination = next_hop;
    last_seen = w.now;
    root = rx.root;
    active = false;
  }

  unfoldable pub drop_previous : Option SnekPath → M Router (Unit {0})
  drop_previous none r = (ok tt, r)
  drop_previous (some p) r = send_teardown_for_existing_path 0 p.index.public_key p.index.path_id r

  unfoldable pub send_setup_ack : SnekSetup → Port → M Router (Unit {0})
  send_setup_ack rx from r = elim (get_peer_on_port r from) [
    | none ↦ (panic, r)
    | some peer ↦ log_error (
        send w
          (snek_setup_ack
            (record { root = rx.root; destination_key = rx.source_key; path_id = rx.path_id }))
          peer r)
  ]

  unfoldable pub install_descending : SnekPath → Router → Router
  install_descending entry r = record r {
    paths = Maps.insert r.paths entry.index entry;
    descending_path = some entry;
  }

  -- The setup has reached its destination.
  unfoldable pub setup_arrived : Port → SnekSetup → M Router (Unit {0})
  setup_arrived from rx r =
      and_then (accepts_setup rx r, r)
        λ update s.
          if update
          then and_then (drop_previous s.descending_path s)
              (λ _ t. send_setup_ack rx from (install_descending (descending_entry rx from) t))
          else send_teardown_for_rejected_path w rx.source_key rx.path_id from s

  -- The setup is for another node.
  unfoldable pub setup_transit : Port → SnekSetup → Port → M Router (Unit {0})
  setup_transit from rx next_hop r = elim (get_peer_on_port r next_hop) [
    | none ↦ (panic, r)
    | some next_peer ↦
        if next_peer == r.public_key
        then send_teardown_for_rejected_path w rx.source_key rx.path_id from r
        else and_then (log_error (send w (snek_setup rx) next_peer r)) λ _ s. (
          ok tt,
          record s { paths = Maps.insert s.paths (index_of rx) (transit_entry rx from next_hop) },
        )
  ]

  -- With another root a teardown goes back, and the code goes on all the same.
  unfoldable pub refuse_other_root : Port → SnekSetup → M Router (Unit {0})
  refuse_other_root from rx r =
      if root_eq (current_root w r) rx.root
      then (ok tt, r)
      else send_teardown_for_rejected_path w rx.source_key rx.path_id from r

  unfoldable pub handle_setup : Port → SnekSetup → Port → M Router (Unit {0})
  handle_setup from rx next_hop r = and_then (refuse_other_root from rx r) λ _ s.
      if Maps.contains_key s.paths (index_of rx)
      then and_then (send_teardown_for_existing_path 0 rx.source_key rx.path_id s)
          (λ _. send_teardown_for_rejected_path w rx.source_key rx.path_id from)
      else if rx.destination_key == s.public_key
      then setup_arrived from rx s
      else setup_transit from rx next_hop s

  -- The entry waits for this acknowledgement.
  unfoldable pub awaits : SnekPathIndex → SnekPath → Port → SnekSetupAck → Bool
  awaits key entry from rx =
      not entry.active
      && ((key.public_key == rx.destination_key)
          && ((key.path_id == rx.path_id) && ((from == entry.destination) || (from == 0))))

  unfoldable pub forward_ack : SnekPath → SnekSetupAck → M Router (Unit {0})
  forward_ack entry rx r =
      if entry.source == 0 then (ok tt, r) else elim (get_peer_on_port r entry.source) [
        | none ↦ (panic, r)
        | some peer ↦ log_error (send w (snek_setup_ack rx) peer r)
      ]

  -- An activated entry that equals the candidate becomes the ascending path.
  unfoldable pub promote : SnekPath → Router → Router
  promote entry r = elim r.candidate [
    | none ↦ r
    | some candidate ↦
        if path_eq entry candidate
        then record r { ascending_path = some entry; candidate = none }
        else r
  ]

  -- The loop over the routing table, which changes its entries in place.
  unfoldable pub activate :
      Port
      → SnekSetupAck
      → HashMap SnekPathIndex SnekPath
      → M Router (HashMap SnekPathIndex SnekPath)
  activate from rx [] r = (ok [], r)
  activate from rx ((key, entry) ∷ rest) r =
      let active_entry = record entry { active = true } in
      elim (awaits key entry from rx) [
        | true ↦ and_then (forward_ack entry rx r) λ _ s.
            and_then (activate from rx rest (promote active_entry s))
              λ done t. (ok ((key, active_entry) ∷ done), t)
        | false ↦ and_then (activate from rx rest r) λ done t. (ok ((key, entry) ∷ done), t)
      ]

  unfoldable pub handle_setup_ack : Port → SnekSetupAck → M Router (Unit {0})
  handle_setup_ack from rx r =
      and_then (activate from rx r.paths r) λ done s. (ok tt, record s { paths = done })
