-- ===== src/SyncLimits/Flags/Laws.antt =====
-- `splitFlagWriteBatches`: what the batches are, and when there is an error.
use supamail.Common.{
  ℕ, ◌+◌, ◌≤◌, ◌<◌, ◌≡◌, refl, ◌↔◌, false, List, [], ◌∷◌, ◌++◌, arith, length, length-append,
  flatten, sum_of, sum_of-append, All, ok,
}
use supamail.SyncLimits.{
  max_sync_batch_size, max_sync_flag_batch_bytes, max_sync_flags_per_batch,
  max_sync_flag_logical_bytes, max_sync_flags_per_logical_batch, Split, count_total, place,
}
use supamail.SyncLimits.Batching.{
  array_bytes, footprint_of, IsSplit, count_total-IsSplit, place-IsSplit, IsStep, Fits, run_sound,
  run_iff,
}
use supamail.SyncLimits.Flags.{
  MessageFlagSnapshot, flag_snapshot_footprint, flag_would_exceed, flag_step,
  split_flag_write_batches,
}

module _ (json_bytes : MessageFlagSnapshot → ℕ) where
  -- The bytes that a snapshot counts for in a write.
  abbrev pub snapshot_bytes : MessageFlagSnapshot → ℕ
  snapshot_bytes m = json_bytes m + 32

  abbrev pub snapshot_items : MessageFlagSnapshot → ℕ
  snapshot_items m = length m.flags

  -- A batch that one write takes: not empty, and within the three limits.
  pub record IsWritable (batch : List MessageFlagSnapshot) : Type 0 where
    pub some_snapshot : 0 < length batch
    pub size : length batch ≤ max_sync_batch_size
    pub bytes : array_bytes snapshot_bytes snapshot_items batch ≤ max_sync_flag_batch_bytes
    pub flags : sum_of snapshot_items batch ≤ max_sync_flags_per_batch

  -- A snapshot that some write can take.
  pub record IsAcceptable (m : MessageFlagSnapshot) : Type 0 where
    pub bytes : snapshot_bytes m + 2 ≤ max_sync_flag_batch_bytes
    pub flags : length m.flags ≤ max_sync_flags_per_batch

  abbrev WithinTotals : List MessageFlagSnapshot → Type 0
  WithinTotals =
      Fits snapshot_bytes snapshot_items IsWritable IsAcceptable max_sync_flag_logical_bytes
        max_sync_flags_per_logical_batch

  abbrev IsFlagSplit :
      List MessageFlagSnapshot → List MessageFlagSnapshot → Split MessageFlagSnapshot → Type 0
  IsFlagSplit = IsSplit snapshot_bytes snapshot_items IsWritable

  placed : MessageFlagSnapshot → Split MessageFlagSnapshot → Split MessageFlagSnapshot
  placed m s =
      let fp = footprint_of snapshot_bytes snapshot_items m in
      let t = count_total fp s in place (flag_would_exceed fp t) m fp t

  single-IsWritable : (m : MessageFlagSnapshot) → IsAcceptable m → IsWritable (m ∷ [])
  single-IsWritable m a = omega (arith, a.bytes, a.flags)

  grown-IsWritable :
      (seen counted : List MessageFlagSnapshot) (m : MessageFlagSnapshot)
      (s : Split MessageFlagSnapshot)
      → IsFlagSplit seen counted s
      → flag_would_exceed (footprint_of snapshot_bytes snapshot_items m) s ≡ false
      → IsWritable s.batch
      → IsWritable (s.batch ++ m ∷ [])
  unfolding flag_would_exceed
  grown-IsWritable seen counted m s h e w = ground (
    arith,
    length-append s.batch (m ∷ []),
    sum_of-append snapshot_bytes s.batch (m ∷ []),
    sum_of-append snapshot_items s.batch (m ∷ []),
    h.bytes_counted,
    h.items_counted,
  )

  placed-IsSplit :
      (seen : List MessageFlagSnapshot) (m : MessageFlagSnapshot) (s : Split MessageFlagSnapshot)
      → IsFlagSplit seen seen s
      → IsAcceptable m
      → IsFlagSplit (seen ++ m ∷ []) (seen ++ m ∷ []) (placed m s)
  unfolding placed
  placed-IsSplit seen m s h a =
      let c = count_total-IsSplit snapshot_bytes snapshot_items IsWritable seen m s h in
      place-IsSplit snapshot_bytes snapshot_items IsWritable _ seen (seen ++ m ∷ []) m _ c
        (single-IsWritable m a) (grown-IsWritable seen (seen ++ m ∷ []) m _ c)

  flag_step-requires :
      (m : MessageFlagSnapshot) (s t : Split MessageFlagSnapshot)
      → flag_step json_bytes m s ≡ ok t
      → IsAcceptable m
        × (s.total_bytes + snapshot_bytes m ≤ max_sync_flag_logical_bytes)
        × (s.total_items + snapshot_items m ≤ max_sync_flags_per_logical_batch)
        × (t ≡ placed m s)
  unfolding flag_step flag_snapshot_footprint placed count_total
  flag_step-requires m s t e = ground arith

  flag_step-accepts :
      (m : MessageFlagSnapshot) (s : Split MessageFlagSnapshot)
      → IsAcceptable m
      → s.total_bytes + snapshot_bytes m ≤ max_sync_flag_logical_bytes
      → s.total_items + snapshot_items m ≤ max_sync_flags_per_logical_batch
      → flag_step json_bytes m s ≡ ok (placed m s)
  unfolding flag_step flag_snapshot_footprint placed count_total
  flag_step-accepts m s a hb hi = ground arith

  flag_step-IsStep :
      IsStep snapshot_bytes snapshot_items IsWritable IsAcceptable max_sync_flag_logical_bytes
        max_sync_flags_per_logical_batch
        (flag_step json_bytes)
  flag_step-IsStep = record {
    keeps = λ seen m s t h e.
        let (a, _, _, same) = flag_step-requires m s t e in rw same (placed-IsSplit seen m s h a);
    accepts = λ seen m s h a f.
        let n = sum_of-append snapshot_bytes seen (m ∷ []) in
        let k = sum_of-append snapshot_items seen (m ∷ []) in
        (
          placed m s,
          flag_step-accepts m s a (omega (arith, n, f.0, h.bytes_totalled))
              (omega (arith, k, f.1, h.items_totalled)),
        );
    requires = λ seen m s t h e.
        let (a, b, i, _) = flag_step-requires m s t e in
        let n = sum_of-append snapshot_bytes seen (m ∷ []) in
        let k = sum_of-append snapshot_items seen (m ∷ []) in
        (a, (omega (arith, n, b, h.bytes_totalled), omega (arith, k, i, h.items_totalled)));
  }

  -- The writes that `splitFlagWriteBatches` returns hold the snapshots in their order, none lost
  -- and none repeated, and each is a write that the limits allow: not empty, at most 500 snapshots,
  -- at most the byte limit with its brackets and commas, at most the flag limit.
  pub split_flag_write_batches_sound :
      (messages : List MessageFlagSnapshot) {batches : List (List MessageFlagSnapshot)}
      → split_flag_write_batches json_bytes messages ≡ ok batches
      → (flatten batches ≡ messages) × All IsWritable batches
  unfolding split_flag_write_batches
  split_flag_write_batches_sound [] e = ground arith
  split_flag_write_batches_sound (m ∷ ms) e =
      run_sound snapshot_bytes snapshot_items IsWritable IsAcceptable max_sync_flag_logical_bytes
        max_sync_flags_per_logical_batch (flag_step json_bytes) flag_step-IsStep (m ∷ ms) _ e

  -- `splitFlagWriteBatches` returns a result exactly when every snapshot
  -- fits into a write of its own, and the sums are within the aggregate limits.
  pub split_flag_write_batches_iff :
      (messages : List MessageFlagSnapshot)
      → ((batches : List (List MessageFlagSnapshot)) × (split_flag_write_batches json_bytes messages
            ≡ ok batches))
        ↔ (All IsAcceptable messages
            × (2 + sum_of snapshot_bytes messages ≤ max_sync_flag_logical_bytes)
            × (sum_of snapshot_items messages ≤ max_sync_flags_per_logical_batch))
  unfolding split_flag_write_batches
  split_flag_write_batches_iff [] = (λ _. omega arith, λ _. ([], refl))
  split_flag_write_batches_iff (m ∷ ms) =
      let (needs, gives) =
        run_iff snapshot_bytes snapshot_items IsWritable IsAcceptable max_sync_flag_logical_bytes
          max_sync_flags_per_logical_batch (flag_step json_bytes) flag_step-IsStep (omega arith)
          (m ∷ ms) in
      (λ h. let (a, (b, c)) = needs h in (a, b, c), λ (a, b, c). gives (a, (b, c)))
