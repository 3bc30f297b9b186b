-- ===== src/Threading/Headers/Tests.antt =====
-- Runs of the message id scan and of the reconciliation, and their theorems at these inputs.
use supamail.Common.{
  ℕ, ◌≤◌, ◌<◌, ◌≡◌, refl, ◌↔◌, ◌⊎◌, true, false, none, some, List, [], ◌∷◌, length, sum_of, All,
  arith,
}
use supamail.Common.Text.{codes, is_space, is_blank, same_codes}
use supamail.Threading.MessageId.{
  unfold_from, cfws_unit, cfws_from, reject_internal_cfws, is_atext, dot_atom_from, literal_from,
  is_domain_literal, unescape_from, parts_unit, parts_from, canonical_local, join_parts,
  split_at_separator, canonicalize_compact, canonicalize_message_id,
}
use supamail.Threading.MessageId.Scan.{
  has_token, scan_outside, push_token, scan_inside, scan_unit, scan_text, scan_values,
  scan_message_id_tokens, extract_message_id_tokens, keep_last, max_message_id_header_chars,
}
use supamail.Threading.MessageId.Tokens.{IsCanonical, IsDistinct, scan_message_id_tokens_sound}
use supamail.Threading.Headers.{
  Chain, every_from, is_chain_suffix, compatible_reference_chains, present_values, select_tokens,
  reconcile_scan, reconcile_loop, reconcile_header_occurrences, ReconciledHeaderScan,
}
use supamail.Threading.Headers.Chains.{IsSuffix, is_chain_suffix_iff}
use supamail.Threading.Headers.Selected.{Sound, reconcile_header_occurrences-covers}

ready : Unit {0}
unfolding is_space is_blank same_codes unfold_from cfws_unit cfws_from reject_internal_cfws is_atext
    dot_atom_from literal_from is_domain_literal unescape_from parts_unit parts_from canonical_local
    join_parts split_at_separator canonicalize_compact canonicalize_message_id has_token
    scan_outside push_token scan_inside scan_unit scan_text scan_values scan_message_id_tokens
    extract_message_id_tokens every_from is_chain_suffix compatible_reference_chains present_values
    select_tokens reconcile_scan reconcile_loop reconcile_header_occurrences
ready = tt

plain : canonicalize_message_id (codes "a.b@c") ≡ some (codes "a.b@c")
unfolding ready
plain = refl

quoted : canonicalize_message_id (codes "\"x\"@y") ≡ some (codes "x@y")
unfolding ready
quoted = refl

spaced : canonicalize_message_id (codes "root @ example") ≡ none
unfolding ready
spaced = refl

literal : canonicalize_message_id (codes "x@[1.2]") ≡ some (codes "x@[1.2]")
unfolding ready
literal = refl

-- A comment hides its content, a nested opener restarts the token, and a repeated token is dropped.
three :
    extract_message_id_tokens (codes "(<z@z>) <a@b> <bad <c@d><a@b>" ∷ [])
    ≡ codes "a@b" ∷ codes "c@d" ∷ []
unfolding ready
three = refl

abbrev header : List (List ℕ)
header = codes "<a@b> <c@d>" ∷ []

scan_message_id_tokens_sound_example :
    (length (scan_message_id_tokens header keep_last 1).tokens ≤ 1)
    × All IsCanonical (scan_message_id_tokens header keep_last 1).tokens
    × IsDistinct (scan_message_id_tokens header keep_last 1).tokens
    × (((scan_message_id_tokens header keep_last 1).oversized ≡ true)
        ↔ (max_message_id_header_chars < sum_of length header))
    × ((scan_message_id_tokens header keep_last 1).oversized ≡ true
        → (scan_message_id_tokens header keep_last 1).tokens ≡ [])
scan_message_id_tokens_sound_example = scan_message_id_tokens_sound header keep_last 1 (omega arith)

abbrev short_chain : Chain
short_chain = codes "c@d" ∷ []

abbrev long_chain : Chain
long_chain = codes "a@b" ∷ codes "c@d" ∷ []

is_chain_suffix_iff_example :
    ((is_chain_suffix short_chain long_chain ≡ true) ↔ IsSuffix short_chain long_chain)
    × ((compatible_reference_chains short_chain long_chain ≡ true)
        ↔ (IsSuffix short_chain long_chain ⊎ IsSuffix long_chain short_chain))
is_chain_suffix_iff_example = is_chain_suffix_iff short_chain long_chain

-- Two occurrences, the first a suffix of the second, and a blank one.
abbrev occurrences : List (List ℕ)
occurrences = codes "<c@d>" ∷ codes " " ∷ codes "<a@b> <c@d>" ∷ []

abbrev both : ReconciledHeaderScan
both = record {
  tokens = long_chain;
  oversized = false;
  truncated = false;
  conflict = false;
  had_value = true;
  malformed = false;
}

reconciled_both :
    reconcile_header_occurrences compatible_reference_chains occurrences keep_last 256 ≡ both
unfolding ready
reconciled_both = refl

reconcile_header_occurrences-covers_example :
    All (Sound keep_last 256 long_chain) (present_values occurrences)
    × (false ≡ false)
    × (false ≡ false)
    × (false ≡ false)
reconcile_header_occurrences-covers_example =
    reconcile_header_occurrences-covers keep_last 256 occurrences both reconciled_both (λ e. cc)
