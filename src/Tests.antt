-- ===== src/Tests.antt =====
-- Concrete runs of the modules.
pub mod Samples
pub mod TextRuns
pub mod PacketRuns
pub mod LobbyRuns
pub mod ViewRuns
pub mod SessionRuns
pub mod LoginRuns
pub mod ServerRuns
pub mod SystemRuns
