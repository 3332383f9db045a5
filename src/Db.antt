-- ===== src/Db.antt =====
-- internal/db/db.go: the migrations of the schema. The directory is a list of entries and what its
-- files hold, and whether PostgreSQL accepts an SQL text is a parameter. The errors of the small
-- statements on `schema_migrations` are dropped, as in the code: which of them fail is in the state.
pub mod Migrations
pub mod Tests
use minnal_labs.Base.{
  String, Bool, false, not, ◌&&◌, ◌||◌, Option, none, some, List, [], ◌∷◌, ◌++◌, str_eq,
  if◌then◌else◌,
}
use minnal_labs.Base.Rows.{any}
use minnal_labs.Base.Rows.Order.{str_leb, sort_by}
use minnal_labs.Base.Text.{has_suffix}
use minnal_labs.Base.Exec.{ok, Exec, fail, ◌>>=◌, ◌>>◌, pure, modify}
use minnal_labs.World.{errorf}

pub record Entry : Type 0 where
  pub name : String
  pub is_dir : Bool

-- the rows of `schema_migrations` by their file name, the SQL texts that were run, and whether
-- each coming COUNT or INSERT on `schema_migrations` fails; one past the end succeeds
pub record Schema : Type 0 where
  pub applied : List String
  pub ran : List String
  pub faults : List Bool

fails : List Bool → Bool × List Bool
fails [] = (false, [])
fails (f ∷ fs) = (f, fs)

-- `SELECT COUNT(*) … Scan(&count)`, and `count > 0`: after an error the count is 0
unfoldable pub count_name : String → Exec Schema Bool
unfolding fails
count_name name s =
    let (failed, fs) = fails s.faults in
    (ok (not failed && any (str_eq name) s.applied), record s { faults = fs })

-- `INSERT INTO schema_migrations`: an error, and that of the primary key too, leaves the rows
unfoldable pub insert_name : String → Exec Schema Unit
unfolding fails
insert_name name s =
    let (failed, fs) = fails s.faults in
    let rows =
      if failed || any (str_eq name) s.applied then s.applied else s.applied ++ name ∷ [] in
    (ok tt, record s { applied = rows; faults = fs })

-- `files`, by their names: all lie in the same directory, so that the order is the one of the paths
unfoldable pub sql_files : List Entry → List String
unfolding has_suffix
sql_files [] = []
sql_files (e ∷ es) =
    let rest = sql_files es in
    if e.is_dir || not (has_suffix e.name ".sql") then rest else e.name ∷ rest

module _ (read_file : String → Option String) (accepts : String → Bool) where
  -- `DB.Exec(string(sqlBytes))`: a text that is refused changes nothing
  unfoldable pub exec_sql : String → Exec Schema Unit
  exec_sql text =
      if accepts text
      then modify (λ s. record s { ran = s.ran ++ text ∷ [] })
      else fail (errorf "Failed to run migration")

  unfoldable pub apply_text : String → Option String → Exec Schema Unit
  unfolding exec_sql insert_name
  apply_text name none = fail (errorf "Failed to read migration file")
  apply_text name (some text) = exec_sql text >> insert_name name

  -- the body of the loop of `RunMigrations`
  unfoldable pub migrate : String → Exec Schema Unit
  unfolding apply_text count_name
  migrate name =
      count_name name >>= (λ known. if known then pure tt else apply_text name (read_file name))

  -- the loop; an error is `log.Fatalf`, which ends the process
  unfoldable pub migrate_all : List String → Exec Schema Unit
  unfolding migrate
  migrate_all [] = pure tt
  migrate_all (name ∷ names) = migrate name >> migrate_all names

  -- `RunMigrations`
  unfoldable pub run_migrations : List Entry → Exec Schema Unit
  unfolding sql_files sort_by migrate_all
  run_migrations entries = migrate_all (sort_by str_leb (sql_files entries))

-- `RunSQLFile`
unfoldable pub run_sql_file : (String → Option String) → (String → Bool) → String → Exec Schema Unit
unfolding exec_sql
run_sql_file read_file accepts path = run_text (read_file path)
  where
    run_text : Option String → Exec Schema Unit
    run_text none = fail (errorf "Failed to read SQL file")
    run_text (some text) = exec_sql read_file accepts text
