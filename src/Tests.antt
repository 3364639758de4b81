-- ===== src/Tests.antt =====
-- The theorems at concrete inputs, and runs of the definitions.
mod Files
mod Queue
mod Delivery
mod Reader
mod Plugins
mod Writer
mod Start
mod PluginLists
mod Following
mod Analysis
mod OutputThread
mod Lifecycle
mod Configuration
mod Placement
