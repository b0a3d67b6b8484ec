-- ===== src/Mobile.antt =====
-- The Android prototype: "shadevpn_android figma/app". A screen is a module with its state, its
-- messages and its handlers; App joins the screens by the router and the timers.
mod Tests
pub mod Home
pub mod Onboarding
pub mod ServerList
pub mod SplitTunneling
pub mod Settings
pub mod App
