-- ===== src/MigrationId.antt =====
-- apps/api/src/migration-id.ts: the ids of public migrations and the test that a schema is ready for
-- a runtime. A text is the list of its code points.
mod Tests
pub mod Order
use supamail.Common.{
  ℕ, ◌+◌, ◌*◌, ◌-◌, Bool, true, false, ◌&&◌, not, Option, none, some, List, [], ◌∷◌, ltb, leb, ◌==◌,
  Outcome, ok, throw, ◌>>=◌, ◌>>◌, if◌then◌else◌,
}
use supamail.Common.Text.{is_space, same_codes}

abbrev pub additive_since_sequence : ℕ
additive_since_sequence = 29

-- `\d`
unfoldable pub is_digit : ℕ → Bool
is_digit c = leb 48 c && leb c 57

-- `\S*`, up to the end of the text.
unfoldable pub no_space : List ℕ → Bool
no_space [] = true
no_space (c ∷ cs) = not (is_space c) && no_space cs

-- `PUBLIC_MIGRATION_ID` after its digits: an underscore and a name.
unfoldable pub is_name : List ℕ → Bool
is_name (u ∷ c ∷ cs) = u == 95 && no_space (c ∷ cs)
is_name _ = false

-- The number of four digits, by their code points.
unfoldable pub number_of : ℕ → ℕ → ℕ → ℕ → ℕ
number_of a b c d = 1000 * (a - 48) + 100 * (b - 48) + 10 * (c - 48) + (d - 48)

unfoldable pub public_migration_sequence : List ℕ → Option ℕ
public_migration_sequence (a ∷ b ∷ c ∷ d ∷ name) =
    if is_digit a && is_digit b && is_digit c && is_digit d && is_name name
    then some (number_of a b c d)
    else none
public_migration_sequence _ = none

pub data InvalidSchemaVersionError : Type 0 where
  invalid_schema_version : List ℕ → InvalidSchemaVersionError

unfoldable pub assert_required_schema_version :
    List ℕ → Outcome InvalidSchemaVersionError (Unit {0})
assert_required_schema_version required = elim (public_migration_sequence required) [
  | none ↦ throw (invalid_schema_version required)
  | some _ ↦ ok tt
]

-- The comparison of the two sequences.
unfoldable pub sequence_ready : ℕ → ℕ → List ℕ → List ℕ → Bool
sequence_ready current_sequence required_sequence current required =
    if current_sequence == required_sequence
    then same_codes current required
    else ltb required_sequence current_sequence && leb additive_since_sequence required_sequence

-- What `isSchemaVersionReady` returns for the two sequences; `!` says that the second is there.
unfoldable pub version_ready : Option ℕ → Option ℕ → List ℕ → List ℕ → Bool
version_ready none required_sequence current required = false
version_ready (some c) none current required = false
version_ready (some c) (some r) current required = sequence_ready c r current required

unfoldable pub is_schema_version_ready : List ℕ → List ℕ → Outcome InvalidSchemaVersionError Bool
is_schema_version_ready current required = do
  assert_required_schema_version required
  ok (
      version_ready (public_migration_sequence current) (public_migration_sequence required) current
        required)
