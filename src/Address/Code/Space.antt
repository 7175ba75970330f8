-- ===== src/Address/Code/Space.antt =====
-- The number can be read back from its address.
use mwanachama_backend_comm.Base.{
  ℕ, ◌+◌, ◌-◌, ◌*◌, ◌%◌, ◌/◌, ◌^◌, ◌<◌, ◌≡◌, [], ◌∷◌, Text, take, drop, arith,
}
use mwanachama_backend_comm.Address.Code.{emit_letters, emit_digits, emit}
use mwanachama_backend_comm.Address.Code.Valid.{emit-Runs, letter_value}

-- The value of a run in base `base`, its least digit first, each digit counted from `origin`.
abbrev value : ℕ → ℕ → Text → ℕ
value base origin [] = 0
value base origin (c ∷ cs) = (c - origin) + base * value base origin cs

-- The value of an address: letters in base 26 and digits in base 10, the first run least.
abbrev pub address_value : Text → ℕ
address_value s =
    value 26 b'A' (take 3 s)
    + 17576
      * (value 10 b'0' (take 4 (drop 3 s))
          + 10000 * (value 26 b'A' (take 3 (drop 7 s)) + 17576 * value 10 b'0' (drop 10 s)))

-- How many addresses there are.
abbrev pub address_count : ℕ
address_count = 26 ^ 6 * 10 ^ 8

emit_letters-value :
    (n : ℕ)
    → (value 26 b'A' (emit_letters 3 n).0 + 17576 * (emit_letters 3 n).1 ≡ n)
      × (value 26 b'A' (emit_letters 3 n).0 < 17576)
unfolding emit_letters
emit_letters-value n =
    rw
      (
        letter_value (n % 26) (omega arith),
        letter_value (n / 26 % 26) (omega arith),
        letter_value (n / 26 / 26 % 26) (omega arith),
      )
      (omega arith)

emit_digits-value :
    (n : ℕ)
    → (value 10 b'0' (emit_digits 4 n).0 + 10000 * (emit_digits 4 n).1 ≡ n)
      × (value 10 b'0' (emit_digits 4 n).0 < 10000)
unfolding emit_digits
emit_digits-value n = omega arith

-- The address that is written for a number tells it, up to a multiple of the number of addresses.
pub address_value-emit : (n : ℕ) → address_value (emit n) ≡ n % address_count
address_value-emit n =
    let (l, n₁) = emit_letters 3 n in
    let (d, n₂) = emit_digits 4 n₁ in
    let (l', n₃) = emit_letters 3 n₂ in
    let r = emit-Runs n in
    rw (r.first_letters, r.first_digits, r.last_letters, r.last_digits)
      (omega (
        arith,
        emit_letters-value n,
        emit_digits-value n₁,
        emit_letters-value n₂,
        emit_digits-value n₃,
      ))

-- Two numbers are written as one address only if they agree modulo the number of addresses.
pub emit_injective : (m n : ℕ) → emit m ≡ emit n → m % address_count ≡ n % address_count
emit_injective m n e = rw (← address_value-emit m, ← address_value-emit n, e)
