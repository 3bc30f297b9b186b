-- ===== src/Threading/MessageId/Scan.antt =====
-- apps/api/src/threading.ts: `scanMessageIdTokens` and `extractMessageIdTokens`.
use supamail.Common.{
  ℕ, ◌+◌, ◌-◌, ◌*◌, Bool, true, false, ◌&&◌, ◌||◌, not, Option, none, some, List, [], ◌∷◌, ◌++◌,
  length, take, drop, sum_of, ltb, ◌==◌, if◌then◌else◌,
}
use supamail.Common.Text.{same_codes}
use supamail.Threading.MessageId.{canonicalize_message_id, unfold_header}

abbrev pub max_reference_ids : ℕ
max_reference_ids = 256

abbrev pub max_message_id_header_chars : ℕ
max_message_id_header_chars = 256 * 1024

-- `seen.has(token)`: `seen` holds what `allTokens` holds.
unfoldable pub has_token : List (List ℕ) → List ℕ → Bool
has_token [] token = false
has_token (t ∷ ts) token = same_codes t token || has_token ts token

-- The variables of the loop over one value; `payload` is the text from `start` on, none for -1.
pub record ScanState : Type 0 where
  pub payload : Option (List ℕ)
  pub quoted : Bool
  pub domain_literal : Bool
  pub escaped : Bool
  pub comment_depth : ℕ
  pub outer_comment_depth : ℕ
  pub outer_quoted : Bool
  pub outer_escaped : Bool
  pub all_tokens : List (List ℕ)

abbrev pub reset : Option (List ℕ) → ScanState → ScanState
reset start s = record s {
  payload = start;
  quoted = false;
  domain_literal = false;
  escaped = false;
  comment_depth = 0;
}

-- Before a value, with the tokens so far.
abbrev pub scan_start : List (List ℕ) → ScanState
scan_start tokens = record {
  payload = none;
  quoted = false;
  domain_literal = false;
  escaped = false;
  comment_depth = 0;
  outer_comment_depth = 0;
  outer_quoted = false;
  outer_escaped = false;
  all_tokens = tokens;
}

-- `start === -1`
unfoldable pub scan_outside : ℕ → ScanState → ScanState
scan_outside c s =
    if s.outer_escaped
    then record s { outer_escaped = false }
    else if ltb 0 s.outer_comment_depth
    then (if c == 92
        then record s { outer_escaped = true }
        else if c == 40
        then record s { outer_comment_depth = s.outer_comment_depth + 1 }
        else if c == 41
        then record s { outer_comment_depth = s.outer_comment_depth - 1 }
        else s)
    else if s.outer_quoted
    then (if c == 92
        then record s { outer_escaped = true }
        else if c == 34
        then record s { outer_quoted = false }
        else s)
    else if c == 40
    then record s { outer_comment_depth = 1 }
    else if c == 34
    then record s { outer_quoted = true }
    else if c == 60
    then reset (some []) s
    else s

-- `if (token && !seen.has(token))`; a canonical id is not empty.
unfoldable pub push_token : Option (List ℕ) → ScanState → ScanState
push_token none s = s
push_token (some token) s =
    if has_token s.all_tokens token then s else record s { all_tokens = s.all_tokens ++ token ∷ [] }

-- A token is open: `text` is what it holds so far, and `kept` the state with this unit appended.
unfoldable pub scan_inside : List ℕ → ℕ → ScanState → ScanState
scan_inside text c s =
    let kept = record s { payload = some (text ++ c ∷ []) } in
    if s.escaped
    then record kept { escaped = false }
    else if c == 92 && (s.quoted || s.domain_literal || ltb 0 s.comment_depth)
    then record kept { escaped = true }
    else if ltb 0 s.comment_depth
    then (if c == 40
        then record kept { comment_depth = s.comment_depth + 1 }
        else if c == 41
        then record kept { comment_depth = s.comment_depth - 1 }
        else kept)
    else if not s.quoted && not s.domain_literal && c == 60
    then reset (some []) s
    else if not s.quoted && not s.domain_literal && c == 40
    then record kept { comment_depth = 1 }
    else if not s.domain_literal && c == 34
    then record kept { quoted = not s.quoted }
    else if not s.quoted && c == 91
    then record kept { domain_literal = true }
    else if not s.quoted && s.domain_literal && c == 93
    then record kept { domain_literal = false }
    else if not (c == 62) || s.quoted || s.domain_literal
    then kept
    else reset none (push_token (canonicalize_message_id text) s)

unfoldable pub scan_unit : ℕ → ScanState → ScanState
scan_unit c s = elim s.payload [ none ↦ scan_outside c s | some text ↦ scan_inside text c s ]

unfoldable pub scan_text : List ℕ → ScanState → ScanState
scan_text [] s = s
scan_text (c ∷ cs) s = scan_text cs (scan_unit c s)

unfoldable pub scan_values : List (List ℕ) → List (List ℕ) → List (List ℕ)
scan_values [] tokens = tokens
scan_values (value ∷ values) tokens =
    scan_values values (scan_text (unfold_header value) (scan_start tokens)).all_tokens

pub data Keep : Type 0 where
  keep_first keep_last : Keep

-- `allTokens.slice(0, limit)` and `allTokens.slice(-limit)`, which keeps all for 0.
abbrev pub keep_tokens : Keep → ℕ → List (List ℕ) → List (List ℕ)
keep_tokens keep_first limit tokens = take limit tokens
keep_tokens keep_last limit tokens =
    if limit == 0 then tokens else drop (length tokens - limit) tokens

pub record ScanResult : Type 0 where
  pub tokens : List (List ℕ)
  pub oversized : Bool
  pub truncated : Bool

-- `totalChars` only grows, so it passes the limit in some round exactly if it does at the end.
unfoldable pub scan_message_id_tokens : List (List ℕ) → Keep → ℕ → ScanResult
scan_message_id_tokens values keep limit =
    if ltb max_message_id_header_chars (sum_of length values)
    then record { tokens = []; oversized = true; truncated = true }
    else let found = scan_values values [] in
      record {
        tokens = keep_tokens keep limit found;
        oversized = false;
        truncated = ltb limit (length found);
      }

unfoldable pub extract_message_id_tokens : List (List ℕ) → List (List ℕ)
extract_message_id_tokens values =
    (scan_message_id_tokens values keep_first max_reference_ids).tokens
