-- ===== src/SyncLimits/Events.antt =====
-- apps/api/src/sync-limits.ts: `flagArrayFootprint`, `assertFlagEventSideWithinLimits` and
-- `splitFlagEventBatches`. A text's length is that of its UTF-8 form.
pub mod Laws
use Prim.Native.String.{String, len}
use supamail.Common.{
  ℕ, ◌+◌, Bool, ◌||◌, ◌&&◌, List, [], ◌∷◌, length, ltb, Outcome, ok, throw_if, ◌>>=◌, ◌>>◌,
}
use supamail.SyncLimits.{
  max_sync_flag_batch_bytes, max_sync_flags_per_batch, max_sync_flag_event_batch_bytes,
  max_sync_flags_per_event_batch, max_sync_flag_event_logical_bytes,
  max_sync_flags_per_event_logical_batch, LimitError, stored_flags, event_limit, event_total,
  Footprint, Split, empty_split, is_open, count_total, place, finish, split_loop,
}

pub record FlagEvent : Type 0 where
  pub uid : ℕ
  pub previous_flags : List String
  pub next_flags : List String

-- The `reduce` of `flagArrayFootprint`.
unfoldable pub flags_bytes : ℕ → List String → ℕ
flags_bytes total [] = total
flags_bytes total (flag ∷ flags) = flags_bytes (total + len flag + 3) flags

unfoldable pub flag_array_footprint : List String → Footprint
flag_array_footprint flags = record { bytes = flags_bytes 2 flags; items = length flags }

pub assert_flag_event_side_within_limits : ℕ → List String → Outcome LimitError (Unit {0})
assert_flag_event_side_within_limits uid flags =
    let fp = flag_array_footprint flags in
    throw_if (ltb max_sync_flag_batch_bytes fp.bytes || ltb max_sync_flags_per_batch fp.items)
      (stored_flags uid)

unfoldable pub flag_event_footprint : FlagEvent → Footprint
flag_event_footprint event =
    let previous = flag_array_footprint event.previous_flags in
    let next = flag_array_footprint event.next_flags in
    record { bytes = previous.bytes + next.bytes + 128; items = previous.items + next.items }

-- `wouldExceedLimit`
unfoldable pub event_would_exceed : Footprint → Split FlagEvent → Bool
event_would_exceed fp s =
    is_open s.batch
    && (ltb max_sync_flag_event_batch_bytes (s.batch_bytes + fp.bytes + 1)
        || ltb max_sync_flags_per_event_batch (s.batch_items + fp.items))

unfoldable pub event_step : FlagEvent → Split FlagEvent → Outcome LimitError (Split FlagEvent)
event_step event s = do
  let fp = flag_event_footprint event
  throw_if
      (ltb max_sync_flag_event_batch_bytes fp.bytes || ltb max_sync_flags_per_event_batch fp.items)
      (event_limit event.uid)
  let t = count_total fp s
  throw_if
      (ltb max_sync_flag_event_logical_bytes t.total_bytes
        || ltb max_sync_flags_per_event_logical_batch t.total_items)
      event_total
  ok (place (event_would_exceed fp t) event fp t)

unfoldable pub split_flag_event_batches :
    List FlagEvent → Outcome LimitError (List (List FlagEvent))
split_flag_event_batches events = do s ← split_loop event_step events empty_split; ok (finish s)
