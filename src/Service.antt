-- ===== src/Service.antt =====
-- manager/service: the services behind the manager's API.
pub mod ExitNode
pub mod Errors
pub mod RemoteExit
pub mod SubnetValidator
