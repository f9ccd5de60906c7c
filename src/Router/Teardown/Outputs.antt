-- ===== src/Router/Teardown/Outputs.antt =====
-- The methods of src/router.rs that send teardowns: what they change of the router.
use rust_pinecone.Prelude.{◌≡◌, refl, ap, ◌∙◌, inl, inr, Option-cases}
use rust_pinecone.Tree.{PublicKey, Port, SnekPathId}
use rust_pinecone.Frames.{SnekTeardown, snek_teardown}
use rust_pinecone.Router.State.{Router, World}
use rust_pinecone.Router.Ports.{get_peer_on_port}
use rust_pinecone.Router.Sends.{core, log_error-state, send-core}
use rust_pinecone.Router.Teardown.{get_teardown, send_teardown_via, send_teardown_for_rejected_path}

module _ (w : World) where
  send_teardown_via-core :
      (frame : SnekTeardown) (via : Port) (r : Router)
      → core (send_teardown_via w frame via r).1 ≡ core r
  unfolding send_teardown_via
  send_teardown_via-core frame via r = elim (Option-cases (get_peer_on_port r via)) [
    | inl e ↦ rw (e, send_teardown_via) refl
    | inr (peer, e) ↦
        rw (e, send_teardown_via)
          (ap core (log_error-state _) ∙ send-core w (snek_teardown frame) peer r)
  ]

  pub send_teardown_for_rejected_path-core :
      (key : PublicKey) (id : SnekPathId) (via : Port) (r : Router)
      → core (send_teardown_for_rejected_path w key id via r).1 ≡ core r
  unfolding send_teardown_for_rejected_path
  send_teardown_for_rejected_path-core key id via r =
      send_teardown_via-core (get_teardown w key id r) via r
