-- ===== src/SyncLimits/Metadata.antt =====
-- apps/api/src/sync-limits.ts: `splitMetadataWriteBatches`. The length of a message's
-- `JSON.stringify` in UTF-8 is a parameter, `none` where the serialization throws.
pub mod Laws
use Prim.Native.String.{String}
use supamail.Common.{
  ℕ, ◌+◌, ◌*◌, Bool, ◌||◌, Option, none, some, List, [], ◌∷◌, length, ltb, leb, if◌then◌else◌,
  Outcome, ok, throw, throw_if, ◌>>=◌, ◌>>◌,
}
use supamail.SyncLimits.{
  max_sync_batch_size, max_sync_metadata_batch_bytes, max_sync_attachments_per_batch,
  max_sync_metadata_logical_bytes, max_sync_attachments_per_logical_batch,
  message_serialization_overhead_bytes, attachment_serialization_overhead_bytes, LimitError,
  not_serializable, metadata_bytes, metadata_attachments, metadata_total, Footprint, Split,
  empty_split, is_open, count_total, place, finish, split_loop,
}

pub record AttachmentMetadata : Type 0 where
  pub filename : Option String
  pub mime_type : Option String
  pub size_bytes : Option ℕ
  pub is_attachment : Bool  -- disposition: "attachment", or "inline"
  pub content_id : Option String
  pub part_number : String

-- Dates are milliseconds; `mime_structure` is the value's JSON text.
pub record MessageMetadata : Type 0 where
  pub uid : ℕ
  pub internal_date : ℕ
  pub size_bytes : ℕ
  pub flags : List String
  pub rfc_message_id : Option String
  pub message_id_normalized : Option String
  pub provider_message_id : Option String
  pub provider_message_id_namespace : Option String
  pub provider_thread_id : Option String
  pub provider_thread_id_namespace : Option String
  pub in_reply_to : Option String
  pub references_header : Option String
  pub subject : Option String
  pub from_email : Option String
  pub from_name : Option String
  pub to_emails : List String
  pub to_names : List (Option String)
  pub cc_emails : List String
  pub cc_names : List (Option String)
  pub bcc_emails : List String
  pub headers_json : List (String × String)
  pub mime_structure : String
  pub attachments : List AttachmentMetadata

-- `wouldExceedLimit`
unfoldable pub metadata_would_exceed : Footprint → Split MessageMetadata → Bool
metadata_would_exceed fp s =
    leb max_sync_batch_size (length s.batch)
    || ltb max_sync_metadata_batch_bytes
        (s.batch_bytes + fp.bytes + (if is_open s.batch then 1 else 0))
    || ltb max_sync_attachments_per_batch (s.batch_items + fp.items)

module _ (json_bytes : MessageMetadata → Option ℕ) where
  unfoldable pub metadata_message_footprint : MessageMetadata → Outcome LimitError Footprint
  metadata_message_footprint m = elim (json_bytes m) [
    | none ↦ throw (not_serializable m.uid)
    | some serialized ↦ ok (record {
      bytes =
          serialized
          + message_serialization_overhead_bytes
          + length m.attachments * attachment_serialization_overhead_bytes;
      items = length m.attachments;
    })
  ]

  unfoldable pub metadata_step :
      MessageMetadata → Split MessageMetadata → Outcome LimitError (Split MessageMetadata)
  metadata_step m s = do
    fp ← metadata_message_footprint m
    throw_if (ltb max_sync_metadata_batch_bytes (fp.bytes + 2)) (metadata_bytes m.uid)
    throw_if (ltb max_sync_attachments_per_batch fp.items) (metadata_attachments m.uid)
    let t = count_total fp s
    throw_if
        (ltb max_sync_metadata_logical_bytes t.total_bytes
          || ltb max_sync_attachments_per_logical_batch t.total_items)
        metadata_total
    ok (place (metadata_would_exceed fp t) m fp t)

  unfoldable pub split_metadata_write_batches :
      List MessageMetadata → Outcome LimitError (List (List MessageMetadata))
  split_metadata_write_batches [] = ok []
  split_metadata_write_batches (m ∷ ms) = do
    s ← split_loop metadata_step (m ∷ ms) empty_split
    ok (finish s)
