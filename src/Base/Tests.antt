-- ===== src/Base/Tests.antt =====
-- Boolean tests on numbers, texts and options.
use Prim.Native.Nat.{ℕ, ◌≤◌, ◌<◌, compare, Ordering}
use Prim.Native.String.{String}
use Prim.Native.String
use mathlib.Core.Path.{◌≡◌, refl}
use mathlib.Core.Logic.{◌⊎◌, inl, inr}
use mathlib.Core.Bool.{Bool, true, false, not}
use mathlib.Core.Option.{Option, none, some}
use native.Mathlib.Omega.{arith}
use text.Mathlib.Text.{◌==◌ as text_eq}

abbrev pub ltb : ℕ → ℕ → Bool
ltb a b = elim (compare a b) [ Ordering.lt ↦ true | _ ↦ false ]

abbrev pub leb : ℕ → ℕ → Bool
leb a b = elim (compare a b) [ Ordering.gt ↦ false | _ ↦ true ]

-- Equality of numbers, and of texts.
abbrev pub eqb : ℕ → ℕ → Bool
eqb a b = elim (compare a b) [ Ordering.eq ↦ true | _ ↦ false ]

infix 50 ◌==◌
abbrev pub ◌==◌ : String → String → Bool
a == b = text_eq a b

infix 1 if◌then◌else◌
abbrev pub if◌then◌else◌ {ℓ} : {A : Type ℓ} → Bool → A → A → A
if true then x else y = x
if false then x else y = y

pub ltb→lt : (a b : ℕ) → ltb a b ≡ true → a < b
ltb→lt a b h = ground arith

pub leb→le : (a b : ℕ) → leb a b ≡ true → a ≤ b
leb→le a b h = ground arith

pub Bool-cases : (b : Bool) → (b ≡ true) ⊎ (b ≡ false)
Bool-cases true = inl refl
Bool-cases false = inr refl

module _ {ℓ} {A : Type ℓ} where
  abbrev pub is_some : Option A → Bool
  is_some none = false
  is_some (some a) = true

  pub Option-cases : (o : Option A) → (o ≡ none) ⊎ ((a : A) × (o ≡ some a))
  Option-cases none = inl refl
  Option-cases (some a) = inr (a, refl)

-- Texts in the order of their bytes.
abbrev pub text_before : String → String → Bool
text_before a b = elim (String.compare a b) [ Ordering.lt ↦ true | _ ↦ false ]

-- `ORDER BY at, id`, and the same with both descending.
abbrev pub oldest_first : ℕ → String → ℕ → String → Bool
oldest_first at id at' id' = if eqb at at' then text_before id id' else ltb at at'

abbrev pub newest_first : ℕ → String → ℕ → String → Bool
newest_first at id at' id' = oldest_first at' id' at id

-- `a != b` of two tests.
abbrev pub differ : Bool → Bool → Bool
differ true b = not b
differ false b = b

-- `if given.IsZero() { given = now }`, and the same for an empty id.
abbrev pub time_or : ℕ → ℕ → ℕ
time_or given now = if eqb given 0 then now else given

abbrev pub id_or : String → String → String
id_or given minted = if given == "" then minted else given
