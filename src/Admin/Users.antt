-- ===== src/Admin/Users.antt =====
-- pages/Users.tsx: the clients of the VPN, their selection, the sidebar that creates and edits one,
-- and the requests to the server.
pub mod Types
pub mod Panel
pub mod Handlers
pub mod Format
pub mod Requests
pub mod Selection
pub mod Screen
pub mod Sidebar
pub mod Page
pub mod Saving
pub mod World
pub mod Settling
pub mod Listing
pub mod Polling
pub mod Editing
