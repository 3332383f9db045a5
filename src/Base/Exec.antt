-- ===== src/Base/Exec.antt =====
-- Code that reads and writes a state and may return an error. What was written before an error
-- stays written, so the state comes back beside the error too.
use Prim.Native.String.{String}
use mathlib.Core.Bool.{Bool}

-- Go's `error`: whether `errors.Is(err, gorm.ErrRecordNotFound)`, and `err.Error()`
pub record Error : Type 0 where
  pub not_found : Bool
  pub message : String

pub data Outcome (A : Type 0) : Type 0 where
  ok : A → Outcome A
  err : Error → Outcome A

abbrev pub Exec : Type 0 → Type 0 → Type 0
Exec S A = S → Outcome A × S

-- `fmt.Errorf("prefix: %w", err)` on the error path, the same value on the other
abbrev pub reword : {A : Type 0} → (Error → Error) → Outcome A → Outcome A
reword f (ok a) = ok a
reword f (err e) = err (f e)

module _ {S A : Type 0} where
  unfoldable pub pure : A → Exec S A
  pure a s = (ok a, s)

  unfoldable pub fail : Error → Exec S A
  fail e s = (err e, s)

  unfoldable pub wrapped : (Error → Error) → Exec S A → Exec S A
  wrapped f m s = let (r, s') = m s in (reword f r, s')

  -- `_ = m`: the error is dropped, what was written is kept
  unfoldable pub ignored : Exec S A → Exec S Unit
  ignored m s = let (r, s') = m s in (ok tt, s')

module _ {S A B : Type 0} where
  abbrev pub continue : Outcome A → (A → Exec S B) → Exec S B
  continue (ok a) f s = f a s
  continue (err e) f s = (err e, s)

  infixl 10 ◌>>=◌ ◌>>◌
  unfoldable pub ◌>>=◌ : Exec S A → (A → Exec S B) → Exec S B
  unfolding pure fail wrapped ignored
  ◌>>=◌ m f s = let (r, s') = m s in continue r f s'

  abbrev pub ◌>>◌ : Exec S A → Exec S B → Exec S B
  m >> n = m >>= λ _. n

  -- `if err := m; err != nil { return handler(err) }`, then the rest
  abbrev pub branch : Outcome A → (Error → Exec S B) → (A → Exec S B) → Exec S B
  branch (ok a) h f s = f a s
  branch (err e) h f s = h e s

  unfoldable pub or_else : Exec S A → (Error → Exec S B) → (A → Exec S B) → Exec S B
  unfolding ◌>>=◌
  or_else m h f s = let (r, s') = m s in branch r h f s'

module _ {S : Type 0} where
  unfoldable pub modify : (S → S) → Exec S Unit
  modify f s = (ok tt, f s)

  unfoldable pub gets : {A : Type 0} → (S → A) → Exec S A
  gets f s = (ok (f s), s)
