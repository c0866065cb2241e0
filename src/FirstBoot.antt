-- ===== src/FirstBoot.antt =====
-- The first boot (app/firstboot): the life of an epoch is generated once, checked, and landed in
-- the present, and only then may the user speak to the bot.
pub mod Status
pub mod Store
pub mod Preflight
pub mod Landing
pub mod Orchestrator
pub mod Machine
pub mod Legal
pub mod Starting
pub mod Landed
pub mod Leading
pub mod Driving
pub mod Completing
pub mod History
pub mod Holding
pub mod Ensuring
pub mod Earning
