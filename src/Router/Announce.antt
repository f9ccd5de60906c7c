-- ===== src/Router/Announce.antt =====
-- src/router.rs, the announcement that a router holds, and sending it on.
use rust_pinecone.Prelude.{
  Bool, true, [], Option, none, some, ◌==◌, if◌then◌else◌, ok, panic, M, and_then,
}
use rust_pinecone.Prelude.Maps
use rust_pinecone.Prelude.Maps.{nat_eq}
use rust_pinecone.Tree.{PublicKey, Root}
use rust_pinecone.Coordinates.{Coordinates}
use rust_pinecone.Frames.{TreeAnnouncement, tree_announcement}
use rust_pinecone.Frames.Announcement.{append_signature, coords}
use rust_pinecone.WaitTimer.{is_expired, new_timer}
use rust_pinecone.Router.State.{
  Router, World, send, log_error, for_each, next_sequence, reparent_wait_time, spawn, reparenting,
}
use rust_pinecone.Router.Ports.{port, peers}

-- `tree_announcement(of)`
abbrev pub announcement_of : Router → PublicKey → Option TreeAnnouncement
announcement_of r of = Maps.get r.announcements of

unfoldable pub set_tree_announcement : PublicKey → TreeAnnouncement → Router → Router
set_tree_announcement of a r = record r { announcements = Maps.insert r.announcements of a }

unfoldable pub set_parent : PublicKey → Router → Router
set_parent peer r = record r { parent = peer }

unfoldable pub become_root : Router → Router
unfolding set_parent
become_root r = set_parent r.public_key r

abbrev pub i_am_root : Router → Bool
i_am_root r = r.public_key == r.parent

module _ (w : World) where
  -- The parent's announcement, or one of the own key.
  unfoldable pub current_announcement : Router → TreeAnnouncement
  current_announcement r = elim (announcement_of r r.parent) [
    | some a ↦ a
    | none ↦ record {
      root = record { public_key = r.public_key; sequence_number = r.sequence };
      signatures = [];
      receive_time = w.now;
      receive_order = r.ordering;
    }
  ]

  unfoldable pub current_root : Router → Root
  unfolding current_announcement
  current_root r = (current_announcement r).root

  unfoldable pub coordinates : Router → Coordinates
  coordinates r = coords (current_announcement r)

  unfoldable pub send_tree_announcement : TreeAnnouncement → PublicKey → M Router (Unit {0})
  send_tree_announcement a to r = elim (port r to) [
    | none ↦ (panic, r)
    | some p ↦
        log_error
          (send w (tree_announcement (append_signature w.buffers w.crypto a r.private_key p)) to r)
  ]

  unfoldable pub send_tree_announcements_to_all : TreeAnnouncement → M Router (Unit {0})
  send_tree_announcements_to_all a r = for_each (send_tree_announcement a) (peers r) r

  unfoldable pub new_tree_announcement : M Router TreeAnnouncement
  new_tree_announcement r = and_then (next_sequence r) λ n r'. (
    ok (record {
      root = record { public_key = r.public_key; sequence_number = n };
      signatures = [];
      receive_time = w.now;
      receive_order = 0;
    }),
    r',
  )

  unfoldable pub reparent_timer_expired : Router → Bool
  reparent_timer_expired r = elim r.reparent_timer [ none ↦ true | some t ↦ is_expired w.now t ]

  unfoldable pub set_reparent_timer : Router → Router
  set_reparent_timer r = record r { reparent_timer = some (new_timer w.now reparent_wait_time) }

  unfoldable pub maintain_tree : M Router (Unit {0})
  maintain_tree r =
      and_then
        (if i_am_root r
          then and_then (new_tree_announcement r) send_tree_announcements_to_all
          else (ok tt, r))
        λ _. spawn (reparenting true)
