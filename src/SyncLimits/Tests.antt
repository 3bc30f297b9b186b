-- ===== src/SyncLimits/Tests.antt =====
-- Runs of the splitters, and their theorems at these inputs.
use supamail.Common.{
  ℕ, ◌+◌, ◌*◌, ◌≤◌, ◌≡◌, refl, ◌↔◌, Option, some, none, List, [], ◌∷◌, map, flatten, sum_of, All,
  ok, throw,
}
use supamail.SyncLimits.{
  metadata_bytes, count_total, place, close_batch, push_item, finish, split_loop,
}
use supamail.SyncLimits.Metadata.{
  MessageMetadata, metadata_message_footprint, metadata_would_exceed, metadata_step,
  split_metadata_write_batches,
}
use supamail.SyncLimits.Metadata.Laws.{
  IsWritable, IsAcceptable, message_bytes, message_items, split_metadata_write_batches_sound,
  split_metadata_write_batches_iff,
}
use supamail.SyncLimits.Flags
use supamail.SyncLimits.Flags.{
  MessageFlagSnapshot, flag_snapshot_footprint, flag_would_exceed, flag_step,
  split_flag_write_batches,
}
use supamail.SyncLimits.Events
use supamail.SyncLimits.Events.{
  FlagEvent, flags_bytes, flag_array_footprint, flag_event_footprint, event_would_exceed,
  event_step, split_flag_event_batches,
}

ready : Unit {0}
unfolding split_metadata_write_batches metadata_step metadata_message_footprint
    metadata_would_exceed count_total place close_batch push_item finish split_loop
ready = tt

ready_flags : Unit {0}
unfolding split_flag_write_batches flag_step flag_snapshot_footprint flag_would_exceed count_total
    place close_batch push_item finish split_loop
ready_flags = tt

ready_events : Unit {0}
unfolding split_flag_event_batches event_step flag_event_footprint flag_array_footprint flags_bytes
    event_would_exceed count_total place close_batch push_item finish split_loop
ready_events = tt

abbrev plain : MessageMetadata
plain = record {
  uid = 1;
  internal_date = 0;
  size_bytes = 10;
  flags = [];
  rfc_message_id = none;
  message_id_normalized = none;
  provider_message_id = none;
  provider_message_id_namespace = none;
  provider_thread_id = none;
  provider_thread_id_namespace = none;
  in_reply_to = none;
  references_header = none;
  subject = some "s";
  from_email = none;
  from_name = none;
  to_emails = [];
  to_names = [];
  cc_emails = [];
  cc_names = [];
  bcc_emails = [];
  headers_json = [];
  mime_structure = "null";
  attachments = [];
}

-- Two such messages do not fit into one write.
abbrev half : MessageMetadata → Option ℕ
half m = some (5 * 1024 * 1024)

abbrev two : List MessageMetadata
two = plain ∷ record plain { uid = 2 } ∷ []

two_writes :
    split_metadata_write_batches half two ≡ ok ((plain ∷ []) ∷ (record plain { uid = 2 } ∷ []) ∷ [])
unfolding ready
two_writes = refl

too_large :
    split_metadata_write_batches (λ m. some (8 * 1024 * 1024)) two ≡ throw (metadata_bytes 1)
unfolding ready
too_large = refl

split_metadata_write_batches_sound_example :
    (flatten ((plain ∷ []) ∷ (record plain { uid = 2 } ∷ []) ∷ []) ≡ two)
    × All (IsWritable half) ((plain ∷ []) ∷ (record plain { uid = 2 } ∷ []) ∷ [])
split_metadata_write_batches_sound_example = split_metadata_write_batches_sound half two two_writes

split_metadata_write_batches_iff_example :
    ((batches : List (List MessageMetadata)) × (split_metadata_write_batches half two ≡ ok batches))
    ↔ (All (IsAcceptable half) two
        × (2 + sum_of (message_bytes half) two ≤ 32 * 1024 * 1024)
        × (sum_of (message_items half) two ≤ 20000))
split_metadata_write_batches_iff_example = split_metadata_write_batches_iff half two

abbrev snapshots : List MessageFlagSnapshot
snapshots = record { uid = 7; flags = "\\Seen" ∷ [] } ∷ record { uid = 9; flags = [] } ∷ []

two_snapshots :
    split_flag_write_batches (λ m. 600 * 1024) snapshots
    ≡ ok (
        (record { uid = 7; flags = "\\Seen" ∷ [] } ∷ [])
        ∷ (record { uid = 9; flags = [] } ∷ [])
        ∷ [])
unfolding ready_flags
two_snapshots = refl

split_flag_write_batches_sound_example :
    (flatten (map (λ m. m ∷ []) snapshots) ≡ snapshots)
    × All (Flags.Laws.IsWritable (λ m. 600 * 1024)) (map (λ m. m ∷ []) snapshots)
split_flag_write_batches_sound_example =
    Flags.Laws.split_flag_write_batches_sound (λ m. 600 * 1024) snapshots two_snapshots

abbrev events : List FlagEvent
events = record { uid = 7; previous_flags = []; next_flags = "\\Seen" ∷ [] } ∷ []

one_event : split_flag_event_batches events ≡ ok (events ∷ [])
unfolding ready_events
one_event = refl

split_flag_event_batches_sound_example :
    (flatten (events ∷ []) ≡ events) × All Events.Laws.IsWritable (events ∷ [])
split_flag_event_batches_sound_example = Events.Laws.split_flag_event_batches_sound events one_event

split_flag_event_batches_iff_example :
    ((batches : List (List FlagEvent)) × (split_flag_event_batches events ≡ ok batches)) ↔ (
      All Events.Laws.IsAcceptable events
      × (2 + sum_of Events.Laws.event_bytes events ≤ 8 * 1024 * 1024)
      × (sum_of Events.Laws.event_items events ≤ 40000))
split_flag_event_batches_iff_example = Events.Laws.split_flag_event_batches_iff events

split_flag_write_batches_iff_example :
    ((batches : List (List MessageFlagSnapshot)) × (split_flag_write_batches
          (λ m. 600 * 1024)
          snapshots
        ≡ ok batches))
    ↔ (All (Flags.Laws.IsAcceptable (λ m. 600 * 1024)) snapshots
        × (2 + sum_of (Flags.Laws.snapshot_bytes (λ m. 600 * 1024)) snapshots ≤ 4 * 1024 * 1024)
        × (sum_of (Flags.Laws.snapshot_items (λ m. 600 * 1024)) snapshots ≤ 20000))
split_flag_write_batches_iff_example =
    Flags.Laws.split_flag_write_batches_iff (λ m. 600 * 1024) snapshots
