-- ===== src/Chat.antt =====
-- The live-chat projection: webui/src/stores/chatStore.ts.
pub mod Message
pub mod Event
pub mod Notice
pub mod Logical
pub mod Reducer
pub mod Order
pub mod History
pub mod Merge
pub mod Snapshot
pub mod State
pub mod Actions
pub mod Live
pub mod Session
pub mod Pages
