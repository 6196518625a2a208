-- ===== src/Prelude/Effects.antt =====
-- What a request handler gives back: a value, a `tonic::Status`, or a panic of the thread that runs
-- it. A handler is an action on a state: what it wrote before an error or a panic stays written.
use Prim.Native.String.{String}
use mathlib.Core.Path.{◌≡◌, refl, ap}
use mathlib.Core.Logic.{◌⊎◌, inl, inr}
use mathlib.Core.Bool.{Bool, true, false}
use mathlib.Core.Option.{Option, none, some}

-- The `tonic::Code`s that the program uses.
pub data Code : Type 0 where
  invalid_argument not_found internal unauthenticated : Code

pub record Status : Type 0 where
  pub code : Code
  pub message : String

pub data Outcome {ℓ} (E A : Type ℓ) : Type ℓ where
  ok : A → Outcome E A
  err : E → Outcome E A
  panic : Outcome E A

abbrev pub status : Code → String → Status
status c m = record { code = c; message = m }

-- The code of the status that a request ends with, if it is refused.
abbrev pub code_of : {A : Type 0} → Outcome Status A → Option Code
code_of (ok a) = none
code_of (err s) = some s.code
code_of panic = none

abbrev pub is_ok {ℓ} : {E A : Type ℓ} → Outcome E A → Bool
is_ok (ok a) = true
is_ok _ = false

abbrev pub is_err {ℓ} : {E A : Type ℓ} → Outcome E A → Bool
is_err (err e) = true
is_err _ = false

pub ok-injective {ℓ} : {E A : Type ℓ} (a b : A) → ◌≡◌ {A = Outcome E A} (ok a) (ok b) → a ≡ b
ok-injective {E = E} {A = A} a b e = ap value e
  where
    value : Outcome E A → A
    value (ok c) = c
    value _ = a

abbrev pub Exec {ℓ} : Type ℓ → Type ℓ → Type ℓ → Type ℓ
Exec S E A = S → Outcome E A × S

module _ {ℓ} {S E A : Type ℓ} where
  abbrev pub pure : A → Exec S E A
  pure a s = (ok a, s)

  abbrev pub fail : E → Exec S E A
  fail e s = (err e, s)

  abbrev pub lift : Outcome E A → Exec S E A
  lift r s = (r, s)

  -- `unwrap`
  abbrev pub unwrap : Option A → Exec S E A
  unwrap none s = (panic, s)
  unwrap (some a) s = (ok a, s)

  -- `ok_or(e)?`
  abbrev pub ok_or : E → Option A → Exec S E A
  ok_or e none s = (err e, s)
  ok_or e (some a) s = (ok a, s)

module _ {ℓ} {S E A B : Type ℓ} where
  abbrev pub continue : Outcome E A → (A → Exec S E B) → Exec S E B
  continue (ok a) f s = f a s
  continue (err e) f s = (err e, s)
  continue panic f s = (panic, s)

  infixl 5 ◌>>=◌ ◌>>◌
  abbrev pub ◌>>=◌ : Exec S E A → (A → Exec S E B) → Exec S E B
  ◌>>=◌ m f s = continue (m s).0 f (m s).1

  abbrev pub ◌>>◌ : Exec S E A → Exec S E B → Exec S E B
  ◌>>◌ m n s = continue (m s).0 (λ _. n) (m s).1

pub Outcome-cases {ℓ} :
    {E A : Type ℓ} (r : Outcome E A)
    → ((a : A) × (r ≡ ok a)) ⊎ (((e : E) × (r ≡ err e)) ⊎ (r ≡ panic))
Outcome-cases (ok a) = inl (a, refl)
Outcome-cases (err e) = inr (inl (e, refl))
Outcome-cases panic = inr (inr refl)

-- `if let Some(a) = o { f(a) } else { d }`
abbrev pub if_let {ℓ κ} : {A : Type ℓ} {B : Type κ} → Option A → (A → B) → B → B
if_let none f d = d
if_let (some a) f d = f a

-- `map_err(f)?`
abbrev pub map_err {ℓ} : {S E F A : Type ℓ} → (E → F) → Exec S E A → Exec S F A
map_err f m s = elim (m s).0 [
  | ok a ↦ (ok a, (m s).1)
  | err e ↦ (err (f e), (m s).1)
  | panic ↦ (panic, (m s).1)
]
