-- ===== src/Threading.antt =====
-- apps/api/src/threading.ts: the pure, account-scoped conversation threading.
pub mod Graph
pub mod DisjointSet
pub mod MessageId
pub mod Headers
pub mod Links
pub mod KeyOrder
pub mod Conversations
mod Tests
