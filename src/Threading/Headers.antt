-- ===== src/Threading/Headers.antt =====
-- apps/api/src/threading.ts: `isChainSuffix`, `compatibleReferenceChains`,
-- `reconcileHeaderOccurrences` and `reconcileHeaderTokenSources`. The values of a header in the JSON
-- object of the headers are an argument, what `headerValues` returns.
pub mod Chains
pub mod Selected
mod Tests
use supamail.Common.{
  ℕ, zero, suc, ◌+◌, ◌-◌, Bool, true, false, ◌&&◌, ◌||◌, not, Option, none, some, List, [], ◌∷◌,
  length, get_elem?, sum_of, ltb, leb, ◌==◌, if◌then◌else◌,
}
use supamail.Common.Text.{is_blank, same_codes}
use supamail.Threading.MessageId.Scan.{
  Keep, ScanResult, scan_message_id_tokens, max_message_id_header_chars,
}

abbrev pub Chain : Type 0
Chain = List (List ℕ)

-- `token === longer[at]`
abbrev pub is_at : Option (List ℕ) → List ℕ → Bool
is_at none token = false
is_at (some found) token = same_codes token found

-- `shorter.every((token, index) => token === longer[offset + index])`
unfoldable pub every_from : ℕ → Chain → Chain → Bool
every_from at longer [] = true
every_from at longer (token ∷ tokens) =
    is_at (get_elem? longer at) token && every_from (suc at) longer tokens

unfoldable pub is_chain_suffix : Chain → Chain → Bool
is_chain_suffix shorter longer =
    if ltb (length longer) (length shorter)
    then false
    else every_from (length longer - length shorter) longer shorter

unfoldable pub compatible_reference_chains : Chain → Chain → Bool
compatible_reference_chains left right = is_chain_suffix left right || is_chain_suffix right left

pub record ReconciledHeaderScan : Type 0 where
  pub tokens : Chain
  pub oversized : Bool
  pub truncated : Bool
  pub conflict : Bool
  pub had_value : Bool
  pub malformed : Bool

-- `values.filter((value) => value.trim())`
unfoldable pub present_values : List (List ℕ) → List (List ℕ)
present_values [] = []
present_values (value ∷ values) =
    let rest = present_values values in if is_blank value then rest else value ∷ rest

-- The variables of the loop over the values.
pub record Selection : Type 0 where
  pub selected : Option Chain
  pub oversized : Bool
  pub truncated : Bool
  pub malformed : Bool
  pub conflict : Bool

abbrev pub no_selection : Selection
no_selection = record {
  selected = none;
  oversized = false;
  truncated = false;
  malformed = false;
  conflict = false;
}

module _ (compatible : Chain → Chain → Bool) where
  unfoldable pub select_tokens : Chain → Selection → Option Chain → Selection
  select_tokens tokens s none = record s { selected = some tokens }
  select_tokens tokens s (some chain) =
      if compatible chain tokens
      then if ltb (length chain) (length tokens) then record s { selected = some tokens } else s
      else record s { conflict = true }

  -- One round of the loop.
  unfoldable pub reconcile_scan : ScanResult → Selection → Selection
  reconcile_scan scan s =
      let t = record s {
        oversized = s.oversized || scan.oversized;
        truncated = s.truncated || scan.truncated;
      } in
      if length scan.tokens == 0 && not scan.oversized
      then record t { malformed = true }
      else select_tokens scan.tokens t t.selected

  unfoldable pub reconcile_loop : Keep → ℕ → List (List ℕ) → Selection → Selection
  reconcile_loop keep limit [] s = s
  reconcile_loop keep limit (value ∷ values) s =
      reconcile_loop keep limit values
        (reconcile_scan (scan_message_id_tokens (value ∷ []) keep limit) s)

  abbrev pub selected_tokens : Selection → Chain
  selected_tokens s =
      if s.oversized || s.malformed || s.conflict
      then []
      else elim s.selected [ none ↦ [] | some tokens ↦ tokens ]

  abbrev pub reconciled : Selection → ReconciledHeaderScan
  reconciled s = record {
    tokens = selected_tokens s;
    oversized = s.oversized;
    truncated = s.truncated;
    conflict = s.conflict;
    had_value = true;
    malformed = s.malformed;
  }

  unfoldable pub reconcile_header_occurrences : List (List ℕ) → Keep → ℕ → ReconciledHeaderScan
  reconcile_header_occurrences values keep limit =
      let present = present_values values in
      if ltb max_message_id_header_chars (sum_of length present)
      then record {
        tokens = [];
        oversized = true;
        truncated = true;
        conflict = false;
        had_value = true;
        malformed = false;
      }
      else if length present == 0
      then record {
        tokens = [];
        oversized = false;
        truncated = false;
        conflict = false;
        had_value = false;
        malformed = false;
      }
      else reconciled (reconcile_loop keep limit present no_selection)

  -- Both sources have a value.
  unfoldable pub reconcile_two : ReconciledHeaderScan → ReconciledHeaderScan → ReconciledHeaderScan
  reconcile_two explicit_scan json_scan =
      let malformed = explicit_scan.malformed || json_scan.malformed in
      if explicit_scan.conflict
        || json_scan.conflict
        || explicit_scan.oversized
        || json_scan.oversized
        || malformed
        || not (compatible explicit_scan.tokens json_scan.tokens)
      then record {
        tokens = [];
        oversized = explicit_scan.oversized || json_scan.oversized;
        truncated = explicit_scan.truncated || json_scan.truncated;
        conflict = true;
        had_value = true;
        malformed = malformed;
      }
      else record {
        tokens =
            if leb (length json_scan.tokens) (length explicit_scan.tokens)
            then explicit_scan.tokens
            else json_scan.tokens;
        oversized = false;
        truncated = explicit_scan.truncated || json_scan.truncated;
        conflict = false;
        had_value = true;
        malformed = false;
      }

  unfoldable pub reconcile_sources :
      ReconciledHeaderScan → ReconciledHeaderScan → ReconciledHeaderScan
  reconcile_sources explicit_scan json_scan =
      if explicit_scan.had_value && json_scan.had_value
      then reconcile_two explicit_scan json_scan
      else record (if explicit_scan.had_value then explicit_scan else json_scan) {
        had_value = explicit_scan.had_value || json_scan.had_value;
        malformed = explicit_scan.malformed || json_scan.malformed;
      }

  unfoldable pub reconcile_header_token_sources :
      List (List ℕ) → List (List ℕ) → Keep → ℕ → ReconciledHeaderScan
  reconcile_header_token_sources explicit_values json_values keep limit =
      reconcile_sources (reconcile_header_occurrences explicit_values keep limit)
        (reconcile_header_occurrences json_values keep limit)
