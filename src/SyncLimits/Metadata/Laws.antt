-- ===== src/SyncLimits/Metadata/Laws.antt =====
-- `splitMetadataWriteBatches`: what the batches are, and when there is an error.
use supamail.Common.{
  ℕ, ◌+◌, ◌*◌, ◌≤◌, ◌<◌, ◌≡◌, refl, ◌≢◌, ◌↔◌, false, Option, none, some, List, [], ◌∷◌, ◌++◌, arith,
  length, length-append, flatten, sum_of, sum_of-append, All, ok,
}
use supamail.SyncLimits.{
  max_sync_batch_size, max_sync_metadata_batch_bytes, max_sync_attachments_per_batch,
  max_sync_metadata_logical_bytes, max_sync_attachments_per_logical_batch,
  message_serialization_overhead_bytes, attachment_serialization_overhead_bytes, Split, count_total,
  place,
}
use supamail.SyncLimits.Batching.{
  array_bytes, footprint_of, IsSplit, count_total-IsSplit, place-IsSplit, IsStep, Fits, run_sound,
  run_iff,
}
use supamail.SyncLimits.Metadata.{
  MessageMetadata, metadata_message_footprint, metadata_would_exceed, metadata_step,
  split_metadata_write_batches,
}

module _ (json_bytes : MessageMetadata → Option ℕ) where
  abbrev pub serialized_bytes : MessageMetadata → ℕ
  serialized_bytes m = elim (json_bytes m) [ none ↦ 0 | some n ↦ n ]

  -- The bytes that a message counts for in a write.
  abbrev pub message_bytes : MessageMetadata → ℕ
  message_bytes m =
      serialized_bytes m
      + message_serialization_overhead_bytes
      + length m.attachments * attachment_serialization_overhead_bytes

  abbrev pub message_items : MessageMetadata → ℕ
  message_items m = length m.attachments

  -- A batch that one write takes: not empty, and within the three limits.
  pub record IsWritable (batch : List MessageMetadata) : Type 0 where
    pub some_message : 0 < length batch
    pub size : length batch ≤ max_sync_batch_size
    pub bytes : array_bytes message_bytes message_items batch ≤ max_sync_metadata_batch_bytes
    pub attachments : sum_of message_items batch ≤ max_sync_attachments_per_batch

  -- A message that some write can take.
  pub record IsAcceptable (m : MessageMetadata) : Type 0 where
    pub serializable : json_bytes m ≢ none
    pub bytes : message_bytes m + 2 ≤ max_sync_metadata_batch_bytes
    pub attachments : length m.attachments ≤ max_sync_attachments_per_batch

  abbrev WithinTotals : List MessageMetadata → Type 0
  WithinTotals =
      Fits message_bytes message_items IsWritable IsAcceptable max_sync_metadata_logical_bytes
        max_sync_attachments_per_logical_batch

  abbrev IsMetadataSplit :
      List MessageMetadata → List MessageMetadata → Split MessageMetadata → Type 0
  IsMetadataSplit = IsSplit message_bytes message_items IsWritable

  placed : MessageMetadata → Split MessageMetadata → Split MessageMetadata
  placed m s =
      let fp = footprint_of message_bytes message_items m in
      let t = count_total fp s in place (metadata_would_exceed fp t) m fp t

  single-IsWritable : (m : MessageMetadata) → IsAcceptable m → IsWritable (m ∷ [])
  single-IsWritable m a = omega (arith, a.bytes, a.attachments)

  grown-IsWritable :
      (seen counted : List MessageMetadata) (m : MessageMetadata) (s : Split MessageMetadata)
      → IsMetadataSplit seen counted s
      → metadata_would_exceed (footprint_of message_bytes message_items m) s ≡ false
      → IsWritable s.batch
      → IsWritable (s.batch ++ m ∷ [])
  unfolding metadata_would_exceed
  grown-IsWritable seen counted m s h e w = ground (
    arith,
    length-append s.batch (m ∷ []),
    sum_of-append message_bytes s.batch (m ∷ []),
    sum_of-append message_items s.batch (m ∷ []),
    h.bytes_counted,
    h.items_counted,
  )

  placed-IsSplit :
      (seen : List MessageMetadata) (m : MessageMetadata) (s : Split MessageMetadata)
      → IsMetadataSplit seen seen s
      → IsAcceptable m
      → IsMetadataSplit (seen ++ m ∷ []) (seen ++ m ∷ []) (placed m s)
  unfolding placed
  placed-IsSplit seen m s h a =
      let c = count_total-IsSplit message_bytes message_items IsWritable seen m s h in
      place-IsSplit message_bytes message_items IsWritable _ seen (seen ++ m ∷ []) m _ c
        (single-IsWritable m a) (grown-IsWritable seen (seen ++ m ∷ []) m _ c)

  metadata_step-requires :
      (m : MessageMetadata) (s t : Split MessageMetadata)
      → metadata_step json_bytes m s ≡ ok t
      → IsAcceptable m
        × (s.total_bytes + message_bytes m ≤ max_sync_metadata_logical_bytes)
        × (s.total_items + message_items m ≤ max_sync_attachments_per_logical_batch)
        × (t ≡ placed m s)
  unfolding metadata_step metadata_message_footprint placed count_total
  metadata_step-requires m s t e = ground arith

  metadata_step-accepts :
      (m : MessageMetadata) (s : Split MessageMetadata)
      → IsAcceptable m
      → s.total_bytes + message_bytes m ≤ max_sync_metadata_logical_bytes
      → s.total_items + message_items m ≤ max_sync_attachments_per_logical_batch
      → metadata_step json_bytes m s ≡ ok (placed m s)
  unfolding metadata_step metadata_message_footprint placed count_total
  metadata_step-accepts m s a hb hi = ground arith

  metadata_step-IsStep :
      IsStep message_bytes message_items IsWritable IsAcceptable max_sync_metadata_logical_bytes
        max_sync_attachments_per_logical_batch
        (metadata_step json_bytes)
  metadata_step-IsStep = record {
    keeps = λ seen m s t h e.
        let (a, _, _, same) = metadata_step-requires m s t e in
        rw same (placed-IsSplit seen m s h a);
    accepts = λ seen m s h a f.
        let n = sum_of-append message_bytes seen (m ∷ []) in
        let k = sum_of-append message_items seen (m ∷ []) in
        (
          placed m s,
          metadata_step-accepts m s a (omega (arith, n, f.0, h.bytes_totalled))
              (omega (arith, k, f.1, h.items_totalled)),
        );
    requires = λ seen m s t h e.
        let (a, b, i, _) = metadata_step-requires m s t e in
        let n = sum_of-append message_bytes seen (m ∷ []) in
        let k = sum_of-append message_items seen (m ∷ []) in
        (a, (omega (arith, n, b, h.bytes_totalled), omega (arith, k, i, h.items_totalled)));
  }

  -- The writes that `splitMetadataWriteBatches` returns hold the messages in their order, none lost
  -- and none repeated, and each is a write that the limits allow: not empty, at most 500 messages,
  -- at most the byte limit with its brackets and commas, at most the attachment limit.
  pub split_metadata_write_batches_sound :
      (messages : List MessageMetadata) {batches : List (List MessageMetadata)}
      → split_metadata_write_batches json_bytes messages ≡ ok batches
      → (flatten batches ≡ messages) × All IsWritable batches
  unfolding split_metadata_write_batches
  split_metadata_write_batches_sound [] e = ground arith
  split_metadata_write_batches_sound (m ∷ ms) e =
      run_sound message_bytes message_items IsWritable IsAcceptable max_sync_metadata_logical_bytes
        max_sync_attachments_per_logical_batch (metadata_step json_bytes) metadata_step-IsStep
        (m ∷ ms) _ e

  -- `splitMetadataWriteBatches` returns a result exactly when every message can be serialized and
  -- fits into a write of its own, and the sums are within the aggregate limits.
  pub split_metadata_write_batches_iff :
      (messages : List MessageMetadata)
      → ((batches : List (List MessageMetadata)) × (split_metadata_write_batches json_bytes messages
            ≡ ok batches))
        ↔ (All IsAcceptable messages
            × (2 + sum_of message_bytes messages ≤ max_sync_metadata_logical_bytes)
            × (sum_of message_items messages ≤ max_sync_attachments_per_logical_batch))
  unfolding split_metadata_write_batches
  split_metadata_write_batches_iff [] = (λ _. omega arith, λ _. ([], refl))
  split_metadata_write_batches_iff (m ∷ ms) =
      let (needs, gives) =
        run_iff message_bytes message_items IsWritable IsAcceptable max_sync_metadata_logical_bytes
          max_sync_attachments_per_logical_batch (metadata_step json_bytes) metadata_step-IsStep
          (omega arith) (m ∷ ms) in
      (λ h. let (a, (b, c)) = needs h in (a, b, c), λ (a, b, c). gives (a, (b, c)))
