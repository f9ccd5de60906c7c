-- ===== src/Frames.antt =====
-- src/frames.rs, the data: the frames that routers exchange.
pub mod Announcement
pub mod Checks
pub mod Relay
use rust_pinecone.Prelude.{ℕ, List}
use rust_pinecone.Tree.{PublicKey, SequenceNumber, SnekPathId, Root, RootAnnouncementSignature}
use rust_pinecone.Coordinates.{Coordinates}

pub record SnekPacket : Type 0 where
  pub destination_key : PublicKey
  pub source_key : PublicKey
  pub payload : List ℕ

pub record TreePacket : Type 0 where
  pub source_coordinates : Coordinates
  pub destination_coordinates : Coordinates
  pub payload : List ℕ

-- `receive_time` is a `SystemTime`: a number of nanoseconds since a fixed moment.
pub record TreeAnnouncement : Type 0 where
  pub root : Root
  pub signatures : List RootAnnouncementSignature
  pub receive_time : ℕ
  pub receive_order : SequenceNumber

pub record SnekBootstrap : Type 0 where
  pub root : Root
  pub destination_key : PublicKey
  pub source : Coordinates
  pub path_id : SnekPathId

pub record SnekBootstrapAck : Type 0 where
  pub destination_coordinates : Coordinates
  pub destination_key : PublicKey
  pub source_coordinates : Coordinates
  pub source_key : PublicKey
  pub root : Root
  pub path_id : SnekPathId

pub record SnekSetup : Type 0 where
  pub root : Root
  pub destination : Coordinates
  pub destination_key : PublicKey
  pub source_key : PublicKey
  pub path_id : SnekPathId

pub record SnekSetupAck : Type 0 where
  pub root : Root
  pub destination_key : PublicKey
  pub path_id : SnekPathId

pub record SnekTeardown : Type 0 where
  pub root : Root
  pub destination_key : PublicKey
  pub path_id : SnekPathId

pub data Frame : Type 0 where
  tree_routed : TreePacket → Frame
  snek_routed : SnekPacket → Frame
  tree_announcement : TreeAnnouncement → Frame
  snek_bootstrap : SnekBootstrap → Frame
  snek_bootstrap_ack : SnekBootstrapAck → Frame
  snek_setup : SnekSetup → Frame
  snek_setup_ack : SnekSetupAck → Frame
  snek_teardown : SnekTeardown → Frame
