-- ===== src/Probe.antt =====
-- internal/providerprobe/imap.go: the fixed checklist of the provider probe. Probe.Checks makes the
-- checks, Probe.Strategy, Probe.Headers and Probe.ReadState have the parts of the checklist, and Probe.Run
-- puts them together.
pub mod Checks
pub mod Strategy
pub mod Headers
pub mod ReadState
pub mod Run
pub mod Ids
pub mod Checklist
pub mod Evident
pub mod Sound
pub mod Searched
pub mod Window
