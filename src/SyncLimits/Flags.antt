-- ===== src/SyncLimits/Flags.antt =====
-- apps/api/src/sync-limits.ts: `splitFlagWriteBatches`. The length in bytes of
-- `JSON.stringify({ uid, flags })` is a parameter.
pub mod Laws
use Prim.Native.String.{String}
use supamail.Common.{
  ℕ, ◌+◌, Bool, ◌||◌, List, [], ◌∷◌, length, ltb, leb, if◌then◌else◌, Outcome, ok, throw_if, ◌>>=◌,
  ◌>>◌,
}
use supamail.SyncLimits.{
  max_sync_batch_size, max_sync_flag_batch_bytes, max_sync_flags_per_batch,
  max_sync_flag_logical_bytes, max_sync_flags_per_logical_batch, LimitError, flag_limit,
  flag_scan_total, Footprint, Split, empty_split, is_open, count_total, place, finish, split_loop,
}

pub record MessageFlagSnapshot : Type 0 where
  pub uid : ℕ
  pub flags : List String

-- `wouldExceedLimit`
unfoldable pub flag_would_exceed : Footprint → Split MessageFlagSnapshot → Bool
flag_would_exceed fp s =
    leb max_sync_batch_size (length s.batch)
    || ltb max_sync_flag_batch_bytes (s.batch_bytes + fp.bytes + (if is_open s.batch then 1 else 0))
    || ltb max_sync_flags_per_batch (s.batch_items + fp.items)

module _ (json_bytes : MessageFlagSnapshot → ℕ) where
  unfoldable pub flag_snapshot_footprint : MessageFlagSnapshot → Footprint
  flag_snapshot_footprint m = record { bytes = json_bytes m + 32; items = length m.flags }

  unfoldable pub flag_step :
      MessageFlagSnapshot
      → Split MessageFlagSnapshot
      → Outcome LimitError (Split MessageFlagSnapshot)
  flag_step m s = do
    let fp = flag_snapshot_footprint m
    throw_if (ltb max_sync_flag_batch_bytes (fp.bytes + 2) || ltb max_sync_flags_per_batch fp.items)
        (flag_limit m.uid)
    let t = count_total fp s
    throw_if
        (ltb max_sync_flag_logical_bytes t.total_bytes
          || ltb max_sync_flags_per_logical_batch t.total_items)
        flag_scan_total
    ok (place (flag_would_exceed fp t) m fp t)

  unfoldable pub split_flag_write_batches :
      List MessageFlagSnapshot → Outcome LimitError (List (List MessageFlagSnapshot))
  split_flag_write_batches [] = ok []
  split_flag_write_batches (m ∷ ms) = do
    s ← split_loop flag_step (m ∷ ms) empty_split
    ok (finish s)
