-- ===== src/Router.antt =====
-- src/router.rs: the router, its state in `Router/State` and a module for each group of methods.
pub mod State
pub mod Ports
pub mod Announce
pub mod Sends
pub mod Keeps
pub mod Tracks
pub mod TreeHop
pub mod ParentSelection
pub mod HandleAnnouncement
pub mod SnekHop
pub mod Teardown
pub mod Bootstrap
pub mod Setup
pub mod Maintenance
pub mod HandleFrame
pub mod Schedule
