-- ===== src/Search/Fields.antt =====
-- apps/api/src/search/types.ts and search/filter-fields.ts: the filters of a search, and the table
-- of the fields that both adapters read. The first parameter is the platform's `toLowerCase`.
use supamail.Common.{
  ℕ, Bool, true, false, not, Option, none, some, List, [], ◌∷◌, ◌++◌, drop, if◌then◌else◌,
}
use supamail.Common.Text.{codes, same_codes, starts_with}
use supamail.Search.Rules.{normalize_message_id}

pub data TextFilterKind : Type 0 where
  from from_domain recipient to cc bcc any_email subject body folder thread msgid : TextFilterKind
  filename filetype mime : TextFilterKind

pub data DateOp : Type 0 where
  after before : DateOp

pub data SizeOp : Type 0 where
  larger smaller : SizeOp

pub data SearchSort : Type 0 where
  smart relevance recent oldest size sender : SearchSort

-- `SearchFilter`: the text fields are one constructor, with their kind. The folders that a later
-- step adds to a folder filter are not in it.
mutual
  pub data SearchFilter : Type 0 where
    text_filter :
        (kind : TextFilterKind) (value : List ℕ) (negated : Bool) (raw : List ℕ) → SearchFilter
    flag : (value : List ℕ) (negated : Bool) (raw : List ℕ) → SearchFilter
    has_attachment : (negated : Bool) (raw : List ℕ) → SearchFilter
    has_body : (negated : Bool) (raw : List ℕ) → SearchFilter
    date : (op : DateOp) (value : List ℕ) (negated : Bool) (raw : List ℕ) → SearchFilter
    bytes : (op : SizeOp) (value : ℕ) (negated : Bool) (raw : List ℕ) → SearchFilter
    or_filter : (filters : Members) (negated : Bool) (raw : List ℕ) → SearchFilter

  pub data Members : Type 0 where
    no_member : Members
    member : SearchFilter → Members → Members

abbrev pub raw_of : SearchFilter → List ℕ
raw_of (SearchFilter.text_filter kind value negated raw) = raw
raw_of (SearchFilter.flag value negated raw) = raw
raw_of (SearchFilter.has_attachment negated raw) = raw
raw_of (SearchFilter.has_body negated raw) = raw
raw_of (SearchFilter.date op value negated raw) = raw
raw_of (SearchFilter.bytes op value negated raw) = raw
raw_of (SearchFilter.or_filter filters negated raw) = raw

abbrev pub members_list : Members → List SearchFilter
members_list Members.no_member = []
members_list (Members.member f fs) = f ∷ members_list fs

-- `filter.kind === "or" ? filter.filters : [filter]`
abbrev pub members_of : SearchFilter → List SearchFilter
members_of (SearchFilter.or_filter filters negated raw) = members_list filters
members_of f = f ∷ []

pub record Routed : Type 0 where
  pub kind : TextFilterKind
  pub value : List ℕ

-- A row of `TEXT_FIELDS`. A structured key has the name of the kind that it stands for.
pub record TextFieldRule : Type 0 where
  pub structured_key : Option TextFilterKind
  pub kind : TextFilterKind
  pub operators : List (List ℕ)
  pub normalize : List ℕ → List ℕ
  pub raw_prefix : List ℕ
  pub route : Option (List ℕ → Routed)
  pub structured_raw : Option (List ℕ → List ℕ)

pub data FlagKey : Type 0 where
  is_unread is_read is_flagged is_starred is_answered is_draft : FlagKey
  has_attachment_key has_body_key : FlagKey

-- A row of `FLAG_FIELDS`.
pub record FlagFieldRule : Type 0 where
  pub structured_key : FlagKey
  pub honors_false : Bool
  pub to_filter : Bool → SearchFilter

-- The input of `filtersFromStructured`, by key; none for a key that is absent.
pub record StructuredFilters : Type 0 where
  pub text_value : TextFilterKind → Option (List ℕ)
  pub flag_value : FlagKey → Option Bool
  pub date_value : DateOp → Option (List ℕ)
  pub size_value : SizeOp → Option ℕ

-- The `route` of `from`: a leading `@` selects the domain.
abbrev pub route_from : List ℕ → Routed
route_from v =
    if starts_with b'@' v
    then record { kind = TextFilterKind.from_domain; value = drop 1 v }
    else record { kind = TextFilterKind.from; value = v }

abbrev pub text_or_empty : Option (List ℕ) → List ℕ
text_or_empty none = []
text_or_empty (some text) = text

-- A row with a structured key, an operator of the key's name, and no route.
abbrev plain : TextFilterKind → List (List ℕ) → (List ℕ → List ℕ) → List ℕ → TextFieldRule
plain kind operators normalize prefix = record {
  structured_key = some kind;
  kind = kind;
  operators = operators;
  normalize = normalize;
  raw_prefix = prefix;
  route = none;
  structured_raw = none;
}

abbrev pub identity : List ℕ → List ℕ
identity v = v

abbrev pub flag_filter : List ℕ → Bool → List ℕ → SearchFilter
flag_filter value negated raw = SearchFilter.flag value negated raw

module _ (to_lower : List ℕ → List ℕ) where
  abbrev pub lower : List ℕ → List ℕ
  lower v = to_lower v

  -- `v.toLowerCase().replace(/^@/, "")`
  abbrev pub domain : List ℕ → List ℕ
  domain v = if starts_with b'@' (to_lower v) then drop 1 (to_lower v) else to_lower v

  unfoldable pub text_fields : List TextFieldRule
  text_fields =
      record {
        structured_key = some TextFilterKind.from;
        kind = TextFilterKind.from;
        operators = codes "from" ∷ [];
        normalize = lower;
        raw_prefix = codes "from";
        route = some route_from;
        structured_raw = none;
      }
      ∷ record {
        structured_key = some TextFilterKind.from_domain;
        kind = TextFilterKind.from_domain;
        operators = [];
        normalize = domain;
        raw_prefix = codes "from";
        route = none;
        structured_raw = some (λ original. codes "from:@" ++ original);
      }
      ∷ plain TextFilterKind.to (codes "to" ∷ []) lower (codes "to")
      ∷ plain TextFilterKind.cc (codes "cc" ∷ []) lower (codes "cc")
      ∷ plain TextFilterKind.bcc (codes "bcc" ∷ []) lower (codes "bcc")
      ∷ record {
        structured_key = none;
        kind = TextFilterKind.recipient;
        operators = codes "recipient" ∷ codes "participant" ∷ codes "with" ∷ [];
        normalize = lower;
        raw_prefix = codes "recipient";
        route = none;
        structured_raw = none;
      }
      ∷ plain TextFilterKind.any_email
          (codes "anyemail"
            ∷ codes "any_email"
            ∷ codes "any"
            ∷ codes "email"
            ∷ codes "address"
            ∷ [])
          lower (codes "anyemail")
      ∷ plain TextFilterKind.subject (codes "subject" ∷ codes "subj" ∷ []) identity
          (codes "subject")
      ∷ plain TextFilterKind.body (codes "body" ∷ []) identity (codes "body")
      ∷ plain TextFilterKind.folder (codes "in" ∷ codes "folder" ∷ codes "label" ∷ []) identity
          (codes "in")
      ∷ plain TextFilterKind.thread (codes "thread" ∷ []) identity (codes "thread")
      ∷ plain TextFilterKind.msgid (codes "msgid" ∷ codes "message-id" ∷ codes "rfc822msgid" ∷ [])
          (λ v. text_or_empty (normalize_message_id to_lower (some v))) (codes "msgid")
      ∷ plain TextFilterKind.filename (codes "filename" ∷ codes "file" ∷ []) lower
          (codes "filename")
      ∷ plain TextFilterKind.filetype (codes "filetype" ∷ codes "attachment-type" ∷ []) lower
          (codes "filetype")
      ∷ plain TextFilterKind.mime (codes "mime" ∷ []) lower (codes "mime")
      ∷ []

unfoldable pub flag_fields : List FlagFieldRule
flag_fields =
    record {
      structured_key = FlagKey.is_unread;
      honors_false = true;
      to_filter = λ v.
          flag_filter (codes "\\Seen") v
            (codes "is:" ++ (if v then codes "unread" else codes "read"));
    }
    ∷ record {
      structured_key = FlagKey.is_read;
      honors_false = false;
      to_filter = λ v. flag_filter (codes "\\Seen") false (codes "is:read");
    }
    ∷ record {
      structured_key = FlagKey.is_flagged;
      honors_false = false;
      to_filter = λ v. flag_filter (codes "\\Flagged") false (codes "is:flagged");
    }
    ∷ record {
      structured_key = FlagKey.is_starred;
      honors_false = true;
      to_filter = λ v.
          flag_filter (codes "\\Flagged") (not v)
            (codes "is:" ++ (if v then codes "starred" else codes "unstarred"));
    }
    ∷ record {
      structured_key = FlagKey.is_answered;
      honors_false = false;
      to_filter = λ v. flag_filter (codes "\\Answered") false (codes "is:answered");
    }
    ∷ record {
      structured_key = FlagKey.is_draft;
      honors_false = false;
      to_filter = λ v. flag_filter (codes "\\Draft") false (codes "is:draft");
    }
    ∷ record {
      structured_key = FlagKey.has_attachment_key;
      honors_false = true;
      to_filter = λ v. SearchFilter.has_attachment (not v) (codes "has:attachment");
    }
    ∷ record {
      structured_key = FlagKey.has_body_key;
      honors_false = true;
      to_filter = λ v. SearchFilter.has_body (not v) (codes "has:body");
    }
    ∷ []

abbrev pub date_fields : List DateOp
date_fields = DateOp.after ∷ DateOp.before ∷ []

abbrev pub size_fields : List SizeOp
size_fields = SizeOp.larger ∷ SizeOp.smaller ∷ []

-- `TEXT_FIELD_BY_OPERATOR.get`: a later row of the table would win, as in the map.
unfoldable pub has_text : List ℕ → List (List ℕ) → Bool
has_text v [] = false
has_text v (w ∷ ws) = if same_codes v w then true else has_text v ws

unfoldable pub text_field_by_operator : List ℕ → List TextFieldRule → Option TextFieldRule
text_field_by_operator name [] = none
text_field_by_operator name (rule ∷ rules) = elim (text_field_by_operator name rules) [
  | some found ↦ some found
  | none ↦ if has_text name rule.operators then some rule else none
]
