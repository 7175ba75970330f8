-- ===== src/Address/Code.antt =====
-- models/address_code.go: an address is derived from a public key, and is three letters, four
-- digits, three letters, four digits. A string that the code walks is a list of its runes.
pub mod Valid
pub mod Typed
pub mod Space
use mwanachama_backend_comm.Base.{
  ℕ, zero, suc, ◌+◌, ◌-◌, ◌*◌, ◌/◌, ◌%◌, Bool, ◌&&◌, ◌||◌, not, List, [], ◌∷◌, ◌++◌, Text, codes,
  leb, ltb, eqb, trim_space, all, take, drop, length, if◌then◌else◌,
}
use mwanachama_backend_comm.Errors.{Result, ok, err, address_malformed, ◌>>=◌}

abbrev pub address_domain_separator : Text
address_domain_separator = codes "mwanachama:actor-address:v1"

abbrev pub address_letters : Text
address_letters = codes "ABCDEFGHIJKLMNOPQRSTUVWXYZ"

abbrev pub address_letters_n : ℕ
address_letters_n = 26

abbrev pub address_letter_run : ℕ
address_letter_run = 3

abbrev pub address_digit_run : ℕ
address_digit_run = 4

-- `s[i]`; 0 stands for the panic out of range.
abbrev pub rune_at : Text → ℕ → ℕ
rune_at [] i = 0
rune_at (r ∷ rs) zero = r
rune_at (r ∷ rs) (suc i) = rune_at rs i

-- The loop of `emitAddressLetters`: what it writes, and what it leaves of the number.
pub emit_letters : ℕ → ℕ → Text × ℕ
emit_letters zero n = ([], n)
emit_letters (suc k) n =
    let (rest, left) = emit_letters k (n / address_letters_n) in
    (rune_at address_letters (n % address_letters_n) ∷ rest, left)

pub emit_digits : ℕ → ℕ → Text × ℕ
emit_digits zero n = ([], n)
emit_digits (suc k) n = let (rest, left) = emit_digits k (n / 10) in ((b'0' + n % 10) ∷ rest, left)

-- What `AddressDerive` writes for the number `n`.
pub emit : ℕ → Text
unfolding emit_letters emit_digits
emit n =
    let (letters, n₁) = emit_letters address_letter_run n in
    let (digits, n₂) = emit_digits address_digit_run n₁ in
    let (letters', n₃) = emit_letters address_letter_run n₂ in
    let (digits', n₄) = emit_digits address_digit_run n₃ in
    letters ++ (digits ++ (letters' ++ digits'))

-- `big.Int.SetBytes`: big-endian.
pub from_bytes : ℕ → List ℕ → ℕ
from_bytes acc [] = acc
from_bytes acc (b ∷ bs) = from_bytes (acc * 256 + b) bs

-- `sum256` is `sha256.Sum256` of the text's bytes.
unfoldable pub address_derive : (sum256 : Text → List ℕ) → Text → Result Text
unfolding emit from_bytes
address_derive sum256 public_key =
    if eqb (length (trim_space public_key)) 0
    then err address_malformed
    else ok (emit (from_bytes 0 (take 16 (sum256 (address_domain_separator ++ 0 ∷ public_key)))))

abbrev pub is_alpha : ℕ → Bool
is_alpha c = leb b'A' c && leb c b'Z'

abbrev pub is_digit : ℕ → Bool
is_digit c = leb b'0' c && leb c b'9'

unfoldable pub address_valid : Text → Bool
address_valid s =
    eqb (length s) (2 * address_letter_run + 2 * address_digit_run)
    && all is_alpha (take address_letter_run s)
    && all is_digit (take address_digit_run (drop address_letter_run s))
    && all is_alpha (take address_letter_run (drop (address_letter_run + address_digit_run) s))
    && all is_digit (drop (2 * address_letter_run + address_digit_run) s)

-- The characters that a person may type between the runs.
abbrev pub is_separator : ℕ → Bool
is_separator r = eqb r b' ' || eqb r b'-' || eqb r 9 || eqb r b'_'

abbrev pub to_upper : ℕ → ℕ
to_upper r = if leb b'a' r && leb r b'z' then r - 32 else r

-- The loop of `AddressNormalize`.
pub squash : Text → Text
squash [] = []
squash (r ∷ rs) = let rest = squash rs in if is_separator r then rest else to_upper r ∷ rest

unfoldable pub address_normalize : Text → Result Text
address_normalize s =
    let out = squash s in if address_valid out then ok out else err address_malformed

pub address_format : Text → Text
address_format s =
    let a : ℕ = address_letter_run in
    let b = a + address_digit_run in
    let c = b + address_letter_run in
    if address_valid s
    then take a s
      ++ (b' '
          ∷ (take (b - a) (drop a s) ++ (b' ' ∷ (take (c - b) (drop b s) ++ (b' ' ∷ drop c s)))))
    else s
