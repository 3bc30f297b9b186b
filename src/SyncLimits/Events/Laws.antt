-- ===== src/SyncLimits/Events/Laws.antt =====
-- `splitFlagEventBatches`: what the batches are, and when there is an error.
use supamail.Common.{
  ℕ, ◌+◌, ◌≤◌, ◌<◌, ◌≡◌, ◌↔◌, false, List, [], ◌∷◌, ◌++◌, arith, length, length-append, flatten,
  sum_of, sum_of-append, All, ok,
}
use supamail.SyncLimits.{
  max_sync_flag_event_batch_bytes, max_sync_flags_per_event_batch,
  max_sync_flag_event_logical_bytes, max_sync_flags_per_event_logical_batch, Split, count_total,
  place,
}
use supamail.SyncLimits.Batching.{
  array_bytes, footprint_of, IsSplit, count_total-IsSplit, place-IsSplit, IsStep, Fits, run_sound,
  run_iff,
}
use supamail.SyncLimits.Events.{
  FlagEvent, flag_event_footprint, event_would_exceed, event_step, split_flag_event_batches,
}

-- The bytes and flags that an event counts for.
abbrev pub event_bytes : FlagEvent → ℕ
event_bytes event = (flag_event_footprint event).bytes

abbrev pub event_items : FlagEvent → ℕ
event_items event = (flag_event_footprint event).items

-- A batch of one write: not empty, and within the limits on bytes and flags, but that the check of a
-- single event leaves the array's two brackets out.
pub record IsWritable (batch : List FlagEvent) : Type 0 where
  pub some_event : 0 < length batch
  pub bytes : array_bytes event_bytes event_items batch ≤ max_sync_flag_event_batch_bytes + 2
  pub bytes_of_many :
      1 < length batch → array_bytes event_bytes event_items batch ≤ max_sync_flag_event_batch_bytes
  pub flags : sum_of event_items batch ≤ max_sync_flags_per_event_batch

-- A event that some write can take.
pub record IsAcceptable (m : FlagEvent) : Type 0 where
  pub bytes : event_bytes m ≤ max_sync_flag_event_batch_bytes
  pub flags : event_items m ≤ max_sync_flags_per_event_batch

abbrev WithinTotals : List FlagEvent → Type 0
WithinTotals =
    Fits event_bytes event_items IsWritable IsAcceptable max_sync_flag_event_logical_bytes
      max_sync_flags_per_event_logical_batch

abbrev IsEventSplit : List FlagEvent → List FlagEvent → Split FlagEvent → Type 0
IsEventSplit = IsSplit event_bytes event_items IsWritable

placed : FlagEvent → Split FlagEvent → Split FlagEvent
placed m s =
    let fp = footprint_of event_bytes event_items m in
    let t = count_total fp s in place (event_would_exceed fp t) m fp t

single-IsWritable : (m : FlagEvent) → IsAcceptable m → IsWritable (m ∷ [])
single-IsWritable m a = omega (arith, a.bytes, a.flags)

grown-IsWritable :
    (seen counted : List FlagEvent) (m : FlagEvent) (s : Split FlagEvent)
    → IsEventSplit seen counted s
    → event_would_exceed (footprint_of event_bytes event_items m) s ≡ false
    → IsWritable s.batch
    → IsWritable (s.batch ++ m ∷ [])
unfolding event_would_exceed
grown-IsWritable seen counted m s h e w = ground (
  arith,
  length-append s.batch (m ∷ []),
  sum_of-append event_bytes s.batch (m ∷ []),
  sum_of-append event_items s.batch (m ∷ []),
  h.bytes_counted,
  h.items_counted,
)

placed-IsSplit :
    (seen : List FlagEvent) (m : FlagEvent) (s : Split FlagEvent)
    → IsEventSplit seen seen s
    → IsAcceptable m
    → IsEventSplit (seen ++ m ∷ []) (seen ++ m ∷ []) (placed m s)
unfolding placed
placed-IsSplit seen m s h a =
    let c = count_total-IsSplit event_bytes event_items IsWritable seen m s h in
    place-IsSplit event_bytes event_items IsWritable _ seen (seen ++ m ∷ []) m _ c
      (single-IsWritable m a) (grown-IsWritable seen (seen ++ m ∷ []) m _ c)

event_step-requires :
    (m : FlagEvent) (s t : Split FlagEvent)
    → event_step m s ≡ ok t
    → IsAcceptable m
      × (s.total_bytes + event_bytes m ≤ max_sync_flag_event_logical_bytes)
      × (s.total_items + event_items m ≤ max_sync_flags_per_event_logical_batch)
      × (t ≡ placed m s)
unfolding event_step placed count_total
event_step-requires m s t e = ground arith

event_step-accepts :
    (m : FlagEvent) (s : Split FlagEvent)
    → IsAcceptable m
    → s.total_bytes + event_bytes m ≤ max_sync_flag_event_logical_bytes
    → s.total_items + event_items m ≤ max_sync_flags_per_event_logical_batch
    → event_step m s ≡ ok (placed m s)
unfolding event_step placed count_total
event_step-accepts m s a hb hi = ground arith

event_step-IsStep :
    IsStep event_bytes event_items IsWritable IsAcceptable max_sync_flag_event_logical_bytes
      max_sync_flags_per_event_logical_batch
      (event_step)
event_step-IsStep = record {
  keeps = λ seen m s t h e.
      let (a, _, _, same) = event_step-requires m s t e in rw same (placed-IsSplit seen m s h a);
  accepts = λ seen m s h a f.
      let n = sum_of-append event_bytes seen (m ∷ []) in
      let k = sum_of-append event_items seen (m ∷ []) in
      (
        placed m s,
        event_step-accepts m s a (omega (arith, n, f.0, h.bytes_totalled))
            (omega (arith, k, f.1, h.items_totalled)),
      );
  requires = λ seen m s t h e.
      let (a, b, i, _) = event_step-requires m s t e in
      let n = sum_of-append event_bytes seen (m ∷ []) in
      let k = sum_of-append event_items seen (m ∷ []) in
      (a, (omega (arith, n, b, h.bytes_totalled), omega (arith, k, i, h.items_totalled)));
}

-- The writes that `splitFlagEventBatches` returns hold the events in their order, none lost
-- and none repeated, and each is one write: not empty, within the byte limit with its brackets and
-- commas if it holds two events or more, at most two bytes (its brackets) above it if it holds one,
-- and within the flag limit.
pub split_flag_event_batches_sound :
    (events : List FlagEvent) {batches : List (List FlagEvent)}
    → split_flag_event_batches events ≡ ok batches
    → (flatten batches ≡ events) × All IsWritable batches
unfolding split_flag_event_batches
split_flag_event_batches_sound events e =
    run_sound event_bytes event_items IsWritable IsAcceptable max_sync_flag_event_logical_bytes
      max_sync_flags_per_event_logical_batch (event_step) event_step-IsStep events _ e

-- `splitFlagEventBatches` returns a result exactly when every event, its brackets left
-- out, is within the limits of one write and the sums are within the aggregate limits.
pub split_flag_event_batches_iff :
    (events : List FlagEvent)
    → ((batches : List (List FlagEvent)) × (split_flag_event_batches events ≡ ok batches)) ↔ (
        All IsAcceptable events
        × (2 + sum_of event_bytes events ≤ max_sync_flag_event_logical_bytes)
        × (sum_of event_items events ≤ max_sync_flags_per_event_logical_batch))
unfolding split_flag_event_batches
split_flag_event_batches_iff events =
    let (needs, gives) =
      run_iff event_bytes event_items IsWritable IsAcceptable max_sync_flag_event_logical_bytes
        max_sync_flags_per_event_logical_batch (event_step) event_step-IsStep (omega arith)
        events in
    (λ h. let (a, (b, c)) = needs h in (a, b, c), λ (a, b, c). gives (a, (b, c)))
