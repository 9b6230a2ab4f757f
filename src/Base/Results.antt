-- ===== src/Base/Results.antt =====
-- Results of fallible code: a value or a Go `error`.
use mathlib.Core.Path.{◌≡◌, refl}
use mathlib.Core.Logic.{◌⊎◌, inl, inr}
use buildutil.Base.Text.{Bytes}

-- What can be wrong with a path, and the errors of the `os` package by their message.
pub data PathProblem : Type 0 where
  not_absolute : Bytes → PathProblem
  not_exist : PathProblem
  not_directory : Bytes → PathProblem
  no_tombstones no_packages empty_dir invalid_source : PathProblem
  cannot_find : Bytes → PathProblem
  system_error : Bytes → PathProblem

-- The errors that the source creates or passes on. `out_of_fuel` belongs to the model only.
pub data Error : Type 0 where
  syntax nul : Error
  multiple_go_build : Error
  parsing_go_build : Bytes → Error
  constraint_error : Bytes → Error
  read_error : Bytes → Error
  path_error : PathProblem → Error
  out_of_fuel : Error

pub data Result {ℓ} (S : Type ℓ) : Type ℓ where
  ok : S → Result S
  err : Error → Result S

pub Result-cases {ℓ} :
    {S : Type ℓ} (r : Result S) → ((s : S) × (r ≡ ok s)) ⊎ ((x : Error) × (r ≡ err x))
Result-cases (ok s) = inl (s, refl)
Result-cases (err x) = inr (x, refl)

-- The steps of a chain; the first error ends it.
infixl 5 ◌>>=◌
abbrev pub ◌>>=◌ {ℓ κ} : {S : Type ℓ} {T : Type κ} (r : Result S) (next : S → Result T) → Result T
(err x) >>= next = err x
(ok s) >>= next = next s

pub >>=-eq-ok {ℓ κ} :
    {S : Type ℓ} {T : Type κ} {t : T} (r : Result S) (next : S → Result T)
    → (r >>= next) ≡ ok t
    → (s : S) × (r ≡ ok s) × (next s ≡ ok t)
>>=-eq-ok (err x) next e = cc
>>=-eq-ok (ok s) next e = (s, refl, e)
