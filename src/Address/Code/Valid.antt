-- ===== src/Address/Code/Valid.antt =====
-- Whatever the digest, the derived address is well formed.
use mwanachama_backend_comm.Base.{
  ℕ, zero, suc, ◌+◌, ◌<◌, ◌%◌, ◌/◌, true, ◌≡◌, refl, List, [], ◌∷◌, ◌++◌, Text, all, take, drop,
  length, arith, length-append, take-append_self, drop-append_self, drop-drop,
}
use mwanachama_backend_comm.Errors.{ok}
use mwanachama_backend_comm.Address.Code.{
  emit_letters, emit_digits, emit, from_bytes, address_domain_separator, address_derive,
  address_valid, address_letters, is_alpha, is_digit, rune_at,
}

-- `k` consecutive runes, the first of them `c`.
run_of : ℕ → ℕ → Text
run_of c zero = []
run_of c (suc k) = c ∷ run_of (suc c) k

rune_at-run_of : (c k m : ℕ) → m < k → rune_at (run_of c k) m ≡ m + c
unfolding run_of
rune_at-run_of c zero m h = absurd (omega arith)
rune_at-run_of c (suc k) zero h = omega arith
rune_at-run_of c (suc k) (suc m) h = omega (arith, rune_at-run_of (suc c) k m (omega arith))

pub letter_value : (m : ℕ) → m < 26 → rune_at address_letters m ≡ m + b'A'
unfolding run_of
letter_value m h = rune_at-run_of b'A' 26 m h

letter-is_alpha : (m : ℕ) → m < 26 → is_alpha (rune_at address_letters m) ≡ true
letter-is_alpha m h = rw (letter_value m h) (ground arith)

emit_letters-all : (k n : ℕ) → all is_alpha (emit_letters k n).0 ≡ true
unfolding emit_letters
emit_letters-all zero n = refl
emit_letters-all (suc k) n =
    rw (letter-is_alpha (n % 26) (omega arith), emit_letters-all k (n / 26))

emit_digits-all : (k n : ℕ) → all is_digit (emit_digits k n).0 ≡ true
unfolding emit_digits
emit_digits-all zero n = refl
emit_digits-all (suc k) n = ground (arith, emit_digits-all k (n / 10))

pub length-emit_letters : (k n : ℕ) → length (emit_letters k n).0 ≡ k
unfolding emit_letters
length-emit_letters zero n = refl
length-emit_letters (suc k) n = omega (arith, length-emit_letters k (n / 26))

pub length-emit_digits : (k n : ℕ) → length (emit_digits k n).0 ≡ k
unfolding emit_digits
length-emit_digits zero n = refl
length-emit_digits (suc k) n = omega (arith, length-emit_digits k (n / 10))

-- The four runs of a text that was put together from three, four, three and four runes.
pub record Runs (l d l' d' s : Text) : Type 0 where
  pub whole : length s ≡ 14
  pub first_letters : take 3 s ≡ l
  pub first_digits : take 4 (drop 3 s) ≡ d
  pub last_letters : take 3 (drop 7 s) ≡ l'
  pub last_digits : drop 10 s ≡ d'

pub runs_lem :
    (l d l' d' : Text)
    → length l ≡ 3
    → length d ≡ 4
    → length l' ≡ 3
    → length d' ≡ 4
    → Runs l d l' d' (l ++ (d ++ (l' ++ d')))
runs_lem l d l' d' h₁ h₂ h₃ h₄ =
    let s = l ++ (d ++ (l' ++ d')) in
    let t : drop 3 s ≡ d ++ (l' ++ d') = drop-append_self 3 l (d ++ (l' ++ d')) h₁ in
    let u : drop 7 s ≡ l' ++ d' = rw (← drop-drop 3 4 s, t) (drop-append_self 4 d (l' ++ d') h₂) in
    record {
      whole = omega (
        arith,
        length-append l (d ++ (l' ++ d')),
        length-append d (l' ++ d'),
        length-append l' d',
      );
      first_letters = take-append_self 3 l (d ++ (l' ++ d')) h₁;
      first_digits = rw t (take-append_self 4 d (l' ++ d') h₂);
      last_letters = rw u (take-append_self 3 l' d' h₃);
      last_digits = rw (← drop-drop 7 3 s, u) (drop-append_self 3 l' d' h₃);
    }

pub emit-Runs :
    (n : ℕ)
    → let (l, n₁) = emit_letters 3 n in
      let (d, n₂) = emit_digits 4 n₁ in
      let (l', n₃) = emit_letters 3 n₂ in Runs l d l' (emit_digits 4 n₃).0 (emit n)
unfolding emit
emit-Runs n =
    let (l, n₁) = emit_letters 3 n in
    let (d, n₂) = emit_digits 4 n₁ in
    let (l', n₃) = emit_letters 3 n₂ in
    runs_lem l d l' (emit_digits 4 n₃).0 (length-emit_letters 3 n) (length-emit_digits 4 n₁)
      (length-emit_letters 3 n₂) (length-emit_digits 4 n₃)

emit-address_valid : (n : ℕ) → address_valid (emit n) ≡ true
unfolding address_valid
emit-address_valid n =
    let (l, n₁) = emit_letters 3 n in
    let (d, n₂) = emit_digits 4 n₁ in
    let (l', n₃) = emit_letters 3 n₂ in
    let r = emit-Runs n in
    rw (
      r.whole,
      r.first_letters,
      r.first_digits,
      r.last_letters,
      r.last_digits,
      emit_letters-all 3 n,
      emit_digits-all 4 n₁,
      emit_letters-all 3 n₂,
      emit_digits-all 4 n₃,
    )

-- Every address that `AddressDerive` returns is one that `AddressValid` accepts, whatever the hash
-- function.
pub address_derive-address_valid :
    (sum256 : Text → List ℕ) (public_key a : Text)
    → address_derive sum256 public_key ≡ ok a
    → address_valid a ≡ true
unfolding address_derive
address_derive-address_valid sum256 public_key a h = ground (
  arith,
  emit-address_valid (from_bytes 0 (take 16 (sum256 (address_domain_separator ++ 0 ∷ public_key)))),
)
