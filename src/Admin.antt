-- ===== src/Admin.antt =====
-- The admin panel: figmadesighn/src/app. A page is a module with its state and handlers; a handler
-- that waits for the server is cut at each `await`, and goes on when its answer comes.
mod Tests
mod PageTests
pub mod Auth
pub mod Users
pub mod Shell
pub mod Groups
pub mod ListPage
mod ListTests
mod SettlingTests
mod ConsoleTests
mod PanelTests
mod DashboardTests
pub mod Cards
pub mod Console
pub mod Settings
pub mod Notice
pub mod ConfigProfiles
pub mod HwidInspector
pub mod ConnectionLogs
pub mod Dashboard
pub mod Nodes
pub mod Panel
pub mod Templates
pub mod ResponseRules
