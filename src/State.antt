-- ===== src/State.antt =====
-- manager/state: the state that the manager's services share.
pub mod LogBuffer
pub mod Manifest
