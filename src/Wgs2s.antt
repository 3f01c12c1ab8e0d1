-- ===== src/Wgs2s.antt =====
-- manager/internal/wgs2s: WireGuard site-to-site tunnels.
pub mod RouteRefs
pub mod Config
pub mod Env
pub mod Routes
pub mod Keys
pub mod Device
pub mod Tunnel
pub mod Names
pub mod Manager
pub mod Requests
