-- ===== src/Search.antt =====
-- apps/api/src/search/parse.ts: the free-text grammar of the search language.
pub mod Fields
pub mod Query
pub mod Rules
pub mod Terms
