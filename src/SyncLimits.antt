-- ===== src/SyncLimits.antt =====
-- apps/api/src/sync-limits.ts: the limits of one write and the three loops that split a batch of
-- changes into writes. The three share their loop variables,
-- which stand here with the statements that change them.
pub mod Batching
pub mod Metadata
pub mod Flags
pub mod Events
pub mod Tests
use supamail.Common.{
  ℕ, ◌+◌, ◌*◌, Bool, ◌&&◌, List, [], ◌∷◌, ◌++◌, length, ltb, if◌then◌else◌, Outcome, ok, ◌>>=◌,
}

abbrev pub max_sync_batch_size : ℕ
max_sync_batch_size = 500

abbrev pub max_sync_metadata_batch_bytes : ℕ
max_sync_metadata_batch_bytes = 8 * 1024 * 1024

abbrev pub max_sync_attachments_per_batch : ℕ
max_sync_attachments_per_batch = 5000

abbrev pub max_sync_metadata_logical_bytes : ℕ
max_sync_metadata_logical_bytes = 32 * 1024 * 1024

abbrev pub max_sync_attachments_per_logical_batch : ℕ
max_sync_attachments_per_logical_batch = 20000

abbrev pub max_sync_flag_batch_bytes : ℕ
max_sync_flag_batch_bytes = 1024 * 1024

abbrev pub max_sync_flags_per_batch : ℕ
max_sync_flags_per_batch = 5000

abbrev pub max_sync_flag_logical_bytes : ℕ
max_sync_flag_logical_bytes = 4 * 1024 * 1024

abbrev pub max_sync_flags_per_logical_batch : ℕ
max_sync_flags_per_logical_batch = 20000

abbrev pub max_sync_flag_event_batch_bytes : ℕ
max_sync_flag_event_batch_bytes = 2 * max_sync_flag_batch_bytes

abbrev pub max_sync_flags_per_event_batch : ℕ
max_sync_flags_per_event_batch = 2 * max_sync_flags_per_batch

abbrev pub max_sync_flag_event_logical_bytes : ℕ
max_sync_flag_event_logical_bytes = 2 * max_sync_flag_logical_bytes

abbrev pub max_sync_flags_per_event_logical_batch : ℕ
max_sync_flags_per_event_logical_batch = 2 * max_sync_flags_per_logical_batch

abbrev pub message_serialization_overhead_bytes : ℕ
message_serialization_overhead_bytes = 128

abbrev pub attachment_serialization_overhead_bytes : ℕ
attachment_serialization_overhead_bytes = 64

pub data LimitError : Type 0 where
  not_serializable metadata_bytes metadata_attachments flag_limit stored_flags event_limit :
      ℕ → LimitError
  metadata_total flag_scan_total event_total : LimitError

-- `items` counts attachments or flags.
pub record Footprint : Type 0 where
  pub bytes : ℕ
  pub items : ℕ

-- The loop variables that the three splitters share.
pub record Split (A : Type 0) : Type 0 where
  pub batches : List (List A)
  pub batch : List A
  pub batch_bytes : ℕ
  pub batch_items : ℕ
  pub total_bytes : ℕ
  pub total_items : ℕ

module _ {A : Type 0} where
  abbrev pub empty_split : Split A
  empty_split = record {
    batches = [];
    batch = [];
    batch_bytes = 2;
    batch_items = 0;
    total_bytes = 2;
    total_items = 0;
  }

  abbrev pub is_open : List A → Bool
  is_open batch = ltb 0 (length batch)

  -- `totalBytes += bytes; totalItems += items;`
  pub count_total : Footprint → Split A → Split A
  count_total fp s = record s {
    total_bytes = s.total_bytes + fp.bytes;
    total_items = s.total_items + fp.items;
  }

  -- `batches.push(batch)` and the reset of the open batch.
  pub close_batch : Split A → Split A
  close_batch s = record s {
    batches = s.batches ++ s.batch ∷ [];
    batch = [];
    batch_bytes = 2;
    batch_items = 0;
  }

  -- `batch.push(item)` and its counters; the comma is counted from the second item on.
  pub push_item : A → Footprint → Split A → Split A
  push_item x fp s = record s {
    batch = s.batch ++ x ∷ [];
    batch_bytes = s.batch_bytes + (fp.bytes + (if is_open s.batch then 1 else 0));
    batch_items = s.batch_items + fp.items;
  }

  pub place : Bool → A → Footprint → Split A → Split A
  place exceeds x fp s = push_item x fp (if exceeds && is_open s.batch then close_batch s else s)

  pub finish : Split A → List (List A)
  finish s = if is_open s.batch then s.batches ++ s.batch ∷ [] else s.batches

  -- The `for` loop over one step.
  pub split_loop :
      (A → Split A → Outcome LimitError (Split A)) → List A → Split A → Outcome LimitError (Split A)
  split_loop step [] s = ok s
  split_loop step (x ∷ xs) s = step x s >>= split_loop step xs
