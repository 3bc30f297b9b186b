-- ===== src/MigrationId/Tests.antt =====
-- Runs of the migration ids, and the theorems about readiness at these inputs.
use supamail.Common.{ℕ, ◌≡◌, refl, ◌↔◌, true, false, none, List, ok, throw}
use supamail.Common.Text.{is_space, codes, same_codes}
use supamail.MigrationId.{
  is_digit, no_space, is_name, number_of, public_migration_sequence, invalid_schema_version,
  InvalidSchemaVersionError, assert_required_schema_version, sequence_ready, version_ready,
  is_schema_version_ready,
}
use supamail.MigrationId.Order.{
  Ready, IsMigrationId, is_schema_version_ready_iff, is_schema_version_ready-throw,
}

abbrev older : List ℕ
older = codes "0029_keys"

abbrev newer : List ℕ
newer = codes "0031_lists"

ready : Unit {0}
unfolding is_space same_codes is_digit no_space is_name number_of public_migration_sequence
    assert_required_schema_version sequence_ready version_ready is_schema_version_ready
ready = tt

newer_than_older : is_schema_version_ready newer older ≡ ok true
unfolding ready
newer_than_older = refl

older_than_newer : is_schema_version_ready older newer ≡ ok false
unfolding ready
older_than_newer = refl

same_number : is_schema_version_ready (codes "0031_other") newer ≡ ok false
unfolding ready
same_number = refl

spaced : public_migration_sequence (codes "0031_a b") ≡ none
unfolding ready
spaced = refl

newer_itself : is_schema_version_ready newer newer ≡ ok true
unfolding ready
newer_itself = refl

is_schema_version_ready_iff_example :
    (is_schema_version_ready newer older ≡ ok true) ↔ Ready newer older
is_schema_version_ready_iff_example = is_schema_version_ready_iff newer older

is_schema_version_ready-throw_example :
    ((e : InvalidSchemaVersionError)
      → (is_schema_version_ready newer (codes "31_a") ≡ throw e)
        ↔ ((¬ IsMigrationId (codes "31_a")) × (e ≡ invalid_schema_version (codes "31_a"))))
    × ((is_schema_version_ready newer (codes "31_a") ≡ ok false)
        ↔ (IsMigrationId (codes "31_a") × (¬ Ready newer (codes "31_a"))))
is_schema_version_ready-throw_example = is_schema_version_ready-throw newer (codes "31_a")
