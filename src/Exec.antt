-- ===== src/Exec.antt =====
-- A method of a store: it reads and writes the tables, and returns a value or an error. What was
-- written before an error stays written, so the tables come back beside the error too.
pub mod Steps
use mwanachama_backend_comm.Base.{Bool, true, false, ◌≡◌, ◌⊎◌}
use mwanachama_backend_comm.Errors.{Error, Result, ok, err}

abbrev pub Exec {ℓ κ} : Type ℓ → Type κ → Type (ℓ ⊔ κ)
Exec S A = S → Result A × S

module _ {ℓ κ} {S : Type ℓ} {A : Type κ} where
  abbrev pub pure : A → Exec S A
  pure a s = (ok a, s)

  abbrev pub raise : Error → Exec S A
  raise e s = (err e, s)

  abbrev pub lift : Result A → Exec S A
  lift r s = (r, s)

  abbrev pub gets : (S → Result A) → Exec S A
  gets f s = (f s, s)

-- The error of a failed call, as `classify(err)` maps it.
abbrev pub map_err {ℓ} : {A : Type ℓ} → (Error → Error) → Result A → Result A
map_err f (ok a) = ok a
map_err f (err e) = err (f e)

infixl 10 ◌>>=◌ ◌>>◌
abbrev pub ◌>>=◌ {ℓ κ μ} :
    {S : Type ℓ} {A : Type κ} {B : Type μ} → Exec S A → (A → Exec S B) → Exec S B
◌>>=◌ m f s = let (r, s') = m s in elim r [ ok a ↦ f a s' | err e ↦ (err e, s') ]

abbrev pub ◌>>◌ {ℓ κ μ} : {S : Type ℓ} {A : Type κ} {B : Type μ} → Exec S A → Exec S B → Exec S B
m >> n = m >>= λ _. n

-- `if !holds { return err }`.
abbrev pub require {ℓ} : {S : Type ℓ} → Bool → Error → Exec S (Unit {0})
require true e s = (ok tt, s)
require false e s = (err e, s)

-- What gorm's `Transaction` does with the function that it is given: an error undoes what was
-- written and is returned; otherwise the writes are kept, unless the commit fails.
pub record Transaction {ℓ κ} (S : Type ℓ) (A : Type κ) : Type (ℓ ⊔ κ) where
  pub run : Exec S A → Exec S A
  pub rolls_back :
      (work : Exec S A) (s s' : S) (e : Error) → work s ≡ (err e, s') → run work s ≡ (err e, s)
  pub commits :
      (work : Exec S A) (s s' : S) (a : A)
      → work s ≡ (ok a, s')
      → (run work s ≡ (ok a, s')) ⊎ ((e : Error) × (run work s ≡ (err e, s)))
