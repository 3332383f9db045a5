-- ===== src/Db/Migrations.antt =====
-- internal/db/db.go: a migration is run once.
use minnal_labs.Base.{
  ◌≡◌, refl, sym, subst, not, ◌&&◌, false, inl, inr, arith, String, Bool, true, Option, none, some,
  List, [], ◌∷◌, ◌++◌, str_eq, Bool-cases,
}
use minnal_labs.Base.Rows.{any, All}
use minnal_labs.Base.Rows.Order.{str_leb, sort_by}
use minnal_labs.Base.Exec.{Outcome, ok, err, continue, pure, fail, modify, ◌>>=◌}
use text.Mathlib.TextPositions.{eq_refl}
use minnal_labs.Db.{
  Entry, Schema, fails, count_name, insert_name, sql_files, exec_sql, apply_text, migrate,
  migrate_all, run_migrations,
}

abbrev quiet : Schema → Schema
quiet s = record s { faults = [] }

-- the file has its row
abbrev pub IsApplied : Schema → String → Type 0
IsApplied s name = any (str_eq name) s.applied ≡ true

any-snoc_kept :
    (p : String → Bool) (xs : List String) (y : String)
    → any p xs ≡ true
    → any p (xs ++ y ∷ []) ≡ true
any-snoc_kept p [] y e = cc
any-snoc_kept p (x ∷ xs) y e = elim (Bool-cases (p x)) [
  | inl t ↦ rw t refl
  | inr f ↦ rw f (any-snoc_kept p xs y (rw f at e))
]

any-snoc_new :
    (p : String → Bool) (xs : List String) (y : String) → p y ≡ true → any p (xs ++ y ∷ []) ≡ true
any-snoc_new p [] y e = rw e refl
any-snoc_new p (x ∷ xs) y e = ground (arith, any-snoc_new p xs y e)

module _ (read_file : String → Option String) (accepts : String → Bool) where
  -- a run that leaves every row that was there, and adds the row of a name, or stops
  abbrev Recorded : Schema → String → Outcome Unit × Schema → Type 0
  Recorded s name (ok u, t) =
      IsApplied t name
      × ((other : String) → IsApplied s other → IsApplied t other)
      × (t.faults ≡ [])
  Recorded s name (err e, t) = Unit

  apply_text-Recorded :
      (name : String) (o : Option String) (s : Schema)
      → any (str_eq name) s.applied ≡ false
      → Recorded s name (apply_text read_file accepts name o (quiet s))
  unfolding apply_text exec_sql insert_name fails modify fail ◌>>=◌
  apply_text-Recorded name none s new = tt
  apply_text-Recorded name (some text) s new = elim (Bool-cases (accepts text)) [
    | inl e ↦
        rw (e, new)
          (
            any-snoc_new (str_eq name) s.applied name (eq_refl name),
            (λ other h. any-snoc_kept (str_eq other) s.applied name h),
            refl,
          )
    | inr e ↦ rw e tt
  ]

  migrate-quiet-Recorded :
      (name : String) (s : Schema) → Recorded s name (migrate read_file accepts name (quiet s))
  unfolding migrate count_name fails pure ◌>>=◌
  migrate-quiet-Recorded name s = elim (Bool-cases (any (str_eq name) s.applied)) [
    | inl e ↦ rw e (e, (λ other h. h), refl)
    | inr e ↦ rw e (apply_text-Recorded name (read_file name) s e)
  ]

  migrate-Recorded :
      (name : String) (s : Schema)
      → s.faults ≡ []
      → Recorded s name (migrate read_file accepts name s)
  migrate-Recorded name s q =
      subst (λ fs. Recorded s name (migrate read_file accepts name (record s { faults = fs })))
        (sym q) (migrate-quiet-Recorded name s)

  abbrev AllRecorded : Schema → List String → Outcome Unit × Schema → Type 0
  AllRecorded s names (ok u, t) =
      All (IsApplied t) names
      × ((other : String) → IsApplied s other → IsApplied t other)
      × (t.faults ≡ [])
  AllRecorded s names (err e, t) = Unit

  joined :
      (name : String) (names : List String) (s t : Schema) (r : Outcome Unit × Schema)
      → IsApplied t name
      → ((other : String) → IsApplied s other → IsApplied t other)
      → AllRecorded t names r
      → AllRecorded s (name ∷ names) r
  joined name names s t (ok u, v) here kept (rest, later, q) =
      ((later name here, rest), (λ other h. later other (kept other h)), q)
  joined name names s t (err e, v) here kept h = tt

  continued :
      (name : String) (names : List String) (s t : Schema) (r : Outcome Unit)
      → Recorded s name (r, t)
      → ((v : Schema) → v.faults ≡ [] → AllRecorded v names (migrate_all read_file accepts names v))
      → AllRecorded s (name ∷ names) (continue r (λ _. migrate_all read_file accepts names) t)
  continued name names s t (ok u) (here, kept, q) later =
      joined name names s t (migrate_all read_file accepts names t) here kept (later t q)
  continued name names s t (err e) h later = tt

  migrate_all-Recorded :
      (names : List String) (s : Schema)
      → s.faults ≡ []
      → AllRecorded s names (migrate_all read_file accepts names s)
  unfolding migrate_all pure ◌>>=◌
  migrate_all-Recorded [] s q = (tt, (λ other h. h), q)
  migrate_all-Recorded (name ∷ names) s q =
      let (r, t) = migrate read_file accepts name s in
      continued name names s t r (migrate-Recorded name s q) (λ v. migrate_all-Recorded names v)

  -- nothing is left to do
  migrate_all-idle :
      (names : List String) (s : Schema)
      → All (IsApplied s) names
      → migrate_all read_file accepts names (quiet s) ≡ (ok tt, quiet s)
  unfolding migrate_all migrate count_name fails pure ◌>>=◌
  migrate_all-idle [] s h = refl
  migrate_all-idle (name ∷ names) s (here, rest) = rw here (migrate_all-idle names s rest)

  abbrev IsSettled : List Entry → Outcome Unit × Schema → Type 0
  IsSettled entries (ok u, t) = run_migrations read_file accepts entries t ≡ (ok tt, t)
  IsSettled entries (err e, t) = Unit

  settled :
      (entries : List Entry) (s : Schema) (r : Outcome Unit × Schema)
      → AllRecorded s (sort_by str_leb (sql_files entries)) r
      → IsSettled entries r
  unfolding run_migrations
  settled entries s (ok u, t) (all, kept, q) =
      let names = sort_by str_leb (sql_files entries) in
      subst
        (λ fs.
          migrate_all read_file accepts names (record t { faults = fs })
          ≡ (ok tt, record t { faults = fs }))
        (sym q) (migrate_all-idle names t all)
  settled entries s (err e, t) h = tt

module _ (read_file : String → Option String) (accepts : String → Bool) where
  abbrev IsAccepted : Option String → Type 0
  IsAccepted none = ⊥
  IsAccepted (some text) = accepts text ≡ true

  -- the file can be read, and PostgreSQL accepts what it holds
  abbrev pub IsReadable : String → Type 0
  IsReadable name = IsAccepted (read_file name)

  apply_text-ok :
      (name : String) (o : Option String) (s : Schema)
      → IsAccepted o
      → (apply_text read_file accepts name o s).0 ≡ ok tt
  unfolding apply_text exec_sql insert_name modify ◌>>=◌
  apply_text-ok name none s h = absurd h
  apply_text-ok name (some text) s h = rw h refl

  migrate-ok :
      (name : String) (s : Schema) → IsReadable name → (migrate read_file accepts name s).0 ≡ ok tt
  unfolding migrate count_name pure ◌>>=◌
  migrate-ok name s h =
      let (failed, fs) = fails s.faults in
      elim (Bool-cases (not failed && any (str_eq name) s.applied)) [
        | inl e ↦ rw e refl
        | inr e ↦ rw e (apply_text-ok name (read_file name) (record s { faults = fs }) h)
      ]

  continue-ok :
      (r : Outcome Unit) (t : Schema) (names : List String)
      → r ≡ ok tt
      → ((v : Schema) → (migrate_all read_file accepts names v).0 ≡ ok tt)
      → (continue r (λ _. migrate_all read_file accepts names) t).0 ≡ ok tt
  continue-ok (ok u) t names e later = later t
  continue-ok (err x) t names e later = cc

  migrate_all-ok :
      (names : List String) (s : Schema)
      → All IsReadable names
      → (migrate_all read_file accepts names s).0 ≡ ok tt
  unfolding migrate_all pure ◌>>=◌
  migrate_all-ok [] s h = refl
  migrate_all-ok (name ∷ names) s (here, rest) =
      let (r, t) = migrate read_file accepts name s in
      continue-ok r t names (migrate-ok name s here) (λ v. migrate_all-ok names v rest)

  returned :
      (entries : List Entry) (r : Outcome Unit) (t : Schema)
      → r ≡ ok tt
      → IsSettled read_file accepts entries (r, t)
      → run_migrations read_file accepts entries t ≡ (ok tt, t)
  returned entries (ok u) t e h = h
  returned entries (err x) t e h = cc

  -- If each SQL file of the directory can be read and PostgreSQL accepts it, and no COUNT and no INSERT on
  -- `schema_migrations`, whose errors the code drops, fails, `RunMigrations` comes to its
  -- end, whatever was applied before, and the same run again comes to its end too, runs no SQL text of
  -- the directory and changes nothing.
  pub run_migrations-once :
      (entries : List Entry) (s : Schema)
      → s.faults ≡ []
      → All IsReadable (sort_by str_leb (sql_files entries))
      → (let (r, t) = run_migrations read_file accepts entries s in
          (r ≡ ok tt) × (run_migrations read_file accepts entries t ≡ (ok tt, t)))
  unfolding run_migrations
  run_migrations-once entries s quiet_statements good =
      let names = sort_by str_leb (sql_files entries) in
      let first = migrate_all-ok names s good in
      let (r, t) = migrate_all read_file accepts names s in
      (
        first,
        returned entries r t first (
            settled read_file accepts entries s (r, t)
              (migrate_all-Recorded read_file accepts names s quiet_statements)),
      )
