-- ===== src/Tests.antt =====
-- Concrete runs of webui/src/stores/chatStore.ts and webui/src/utils/replySegments.ts.
mod Fixtures
pub mod ReplyRuns
pub mod ChatRuns
pub mod SocketRuns
pub mod CacheRuns
pub mod StoreRuns
pub mod DialogRuns
pub mod ConductorRuns
pub mod HubRuns
pub mod ListRuns
pub mod TranscriptRuns
pub mod SessionRuns
