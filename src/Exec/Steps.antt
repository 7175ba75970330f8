-- ===== src/Exec/Steps.antt =====
-- An action that returned a value: what each of its steps returned.
use mwanachama_backend_comm.Base.{Bool, true, false, ◌≡◌, ◌⊎◌, refl, inl, inr, arith}
use mwanachama_backend_comm.Errors.{Error, Result, ok, err}
use mwanachama_backend_comm.Exec.{Exec, require, lift, ◌>>=◌, pure}

pub Outcome-cases :
    {A S : Type 0} (r : Result A × S)
    → ((e : Error) × (s : S) × (r ≡ (err e, s))) ⊎ ((a : A) × (s : S) × (r ≡ (ok a, s)))
Outcome-cases (err e, s) = inl (e, s, refl)
Outcome-cases (ok a, s) = inr (a, s, refl)

pub Result-cases :
    {A : Type 0} (r : Result A) → ((e : Error) × (r ≡ err e)) ⊎ ((a : A) × (r ≡ ok a))
Result-cases (err e) = inl (e, refl)
Result-cases (ok a) = inr (a, refl)

pub bind-ok :
    {S A B : Type 0} (m : Exec S A) (k : A → Exec S B) (s s' : S) (b : B)
    → (m >>= k) s ≡ (ok b, s')
    → (a : A) × (between : S) × (m s ≡ (ok a, between)) × (k a between ≡ (ok b, s'))
bind-ok m k s s' b h = elim (Outcome-cases (m s)) [
  | inl (e, x, fails) ↦ absurd (ground arith)
  | inr (a, between, works) ↦ (a, between, works, ground arith)
]

pub require-ok :
    {S : Type 0} (b : Bool) (e : Error) (s s' : S) (u : Unit {0})
    → require b e s ≡ (ok u, s')
    → (b ≡ true) × (s' ≡ s)
require-ok true e s s' u h = (refl, cc)
require-ok false e s s' u h = cc

pub lift-ok :
    {S A : Type 0} (r : Result A) (s s' : S) (a : A) → lift r s ≡ (ok a, s') → (r ≡ ok a) × (s' ≡ s)
lift-ok (ok b) s s' a h = (cc, cc)
lift-ok (err e) s s' a h = cc

pub ok-pair : {S A : Type 0} (r : Result A × S) (a : A) → r.0 ≡ ok a → r ≡ (ok a, r.1)
ok-pair (x, s) a h = rw h refl

-- What follows a guard, and what follows a value that was lifted.
pub guarded :
    {S A : Type 0} (b : Bool) (e : Error) (k : Unit {0} → Exec S A) (s s' : S) (a : A)
    → (require b e >>= k) s ≡ (ok a, s')
    → (b ≡ true) × (k tt s ≡ (ok a, s'))
guarded true e k s s' a h = (refl, h)
guarded false e k s s' a h = cc

pub lifted :
    {S A B : Type 0} (r : Result A) (k : A → Exec S B) (s s' : S) (b : B)
    → (lift r >>= k) s ≡ (ok b, s')
    → (a : A) × (r ≡ ok a) × (k a s ≡ (ok b, s'))
lifted (ok a) k s s' b h = (a, refl, h)
lifted (err e) k s s' b h = cc

-- A value that is built from another's leaves what that left.
pub bind-pure :
    {S A B : Type 0} (m : Exec S A) (f : A → B) (s : S) → ((m >>= λ a. pure (f a)) s).1 ≡ (m s).1
bind-pure m f s = elim (Outcome-cases (m s)) [
  | inl (e, x, fails) ↦ ground arith
  | inr (a, x, works) ↦ ground arith
]

pub bind-step :
    {S A B : Type 0} (m : Exec S A) (k : A → Exec S B) (s s' : S) (a : A)
    → m s ≡ (ok a, s')
    → (m >>= k) s ≡ k a s'
bind-step m k s s' a h = ground arith
