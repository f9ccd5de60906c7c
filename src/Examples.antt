-- ===== src/Examples.antt =====
-- Concrete values, and the theorems about them: a toy signature scheme, a world and a router with
-- one peer.
mod Wire
mod Routing
mod Paths
mod Sessions
mod Runs
mod Networks
use rust_pinecone.Prelude.{
  ℕ, ◌+◌, ◌≡◌, refl, List, [], ◌∷◌, Option, none, some, length, ◌==◌, ==_self, Bool, true, false,
}
use rust_pinecone.Bytes.{BytesMut, big_endian}
use rust_pinecone.Tree.{Root, RootAnnouncementSignature}
use rust_pinecone.Frames.{TreeAnnouncement}
use rust_pinecone.Frames.Announcement.{Ed25519, IsCorrect}
use rust_pinecone.Router.State.{Router, World}

-- A key signs a message with its length, moved by the key.
abbrev pub toy : Ed25519
toy = record {
  verification_key = λ k. k;
  sign = λ k m. k + length m;
  is_key = λ k. true;
  verify = λ k s m. s == k + length m;
}

pub toy-IsCorrect : IsCorrect toy
toy-IsCorrect = record {
  is_key-verification_key = λ k. refl;
  verify-sign = λ k m. ==_self (k + length m);
}

abbrev pub world : World
world = record {
  buffers = big_endian;
  crypto = toy;
  now = 100;
  path_id = 7;
  link = λ to frame. none;
  client_open = true;
}

abbrev pub root : Root
root = record { public_key = 9; sequence_number = 3 }

-- What the root 9 signs for its port 2: 40 bytes of the root, 40 of the key and the port.
abbrev pub signed : RootAnnouncementSignature
signed = record { signing_public_key = 9; destination_port = 2; signature = 89 }

abbrev pub announcement : TreeAnnouncement
announcement = record {
  root = root;
  signatures = signed ∷ [];
  receive_time = 50;
  receive_order = 1;
}

-- The router 5, whose peer on port 1 is the root 9, its parent.
abbrev pub router : Router
router = record {
  private_key = 5;
  public_key = 5;
  running = true;
  upload_connections = (9, tt) ∷ [];
  download_connections = (9, tt) ∷ [];
  ports = (1, some 9) ∷ [];
  parent = 9;
  announcements = (9, announcement) ∷ [];
  sequence = 0;
  ordering = 1;
  reparent_timer = none;
  ascending_path = none;
  descending_path = none;
  paths = [];
  candidate = none;
  sent = [];
  delivered = [];
  spawned = [];
  awaited = [];
}
