-- ===== src/Db/Tests.antt =====
-- A run of internal/db/db.go with two migrations, one of which was applied before.
use minnal_labs.Base.{
  ◌≡◌, refl, String, Option, true, false, none, some, List, [], ◌∷◌, str_eq, if◌then◌else◌,
}
use minnal_labs.Base.Rows.Order.{insert_by, sort_by}
use minnal_labs.Base.Text.{has_suffix}
use minnal_labs.Base.Exec.{ok, pure, modify, ◌>>=◌}
use minnal_labs.Db.{
  Entry, Schema, sql_files, fails, count_name, insert_name, exec_sql, apply_text, migrate,
  migrate_all, run_migrations,
}
use minnal_labs.Db.Migrations.{run_migrations-once}

abbrev entries : List Entry
entries =
    record { name = "002_b.sql"; is_dir = false }
    ∷ record { name = "README.md"; is_dir = false }
    ∷ record { name = "001_a.sql"; is_dir = false }
    ∷ []

abbrev read_file : String → Option String
read_file name = if str_eq name "README.md" then none else some name

abbrev before : Schema
before = record { applied = "001_a.sql" ∷ []; ran = []; faults = [] }

-- the INSERT for the second migration fails: the run comes to its end, and the next runs the text again
abbrev insert_fails : Schema
insert_fails = record before { faults = false ∷ false ∷ true ∷ [] }

runs_again :
    (let (r, t) = run_migrations read_file (λ _. true) entries insert_fails in
      (r ≡ ok tt)
      × ((run_migrations read_file (λ _. true) entries t).1.ran ≡ "002_b.sql" ∷ "002_b.sql" ∷ []))
unfolding run_migrations sort_by insert_by sql_files has_suffix migrate_all migrate count_name fails
    apply_text insert_name exec_sql pure modify ◌>>=◌
runs_again = (refl, refl)

run_migrations-once_example :
    (let (r, t) = run_migrations read_file (λ _. true) entries before in
      (r ≡ ok tt) × (run_migrations read_file (λ _. true) entries t ≡ (ok tt, t)))
unfolding sql_files sort_by insert_by has_suffix
run_migrations-once_example =
    run_migrations-once read_file (λ _. true) entries before refl (refl, (refl, tt))
