-- ===== src/Address/Code/Typed.antt =====
-- An address survives the way a person types it.
use mwanachama_backend_comm.Base.{
  ℕ, ◌+◌, ◌≤◌, Bool, true, ◌≡◌, refl, [], ◌∷◌, ◌++◌, Text, all, take, drop, arith, drop-drop,
  take-append-drop, if◌then◌else◌, false,
}
use mwanachama_backend_comm.Errors.{ok, err, address_malformed}
use mwanachama_backend_comm.Address.Code.{
  address_valid, address_normalize, address_format, squash, is_separator, is_alpha, is_digit,
}

-- `TypedAs t s`: somebody typed `t` for `s`, with separators anywhere and letters of either case.
pub data TypedAs : Text → Text → Type 0 where
  done : TypedAs [] []
  same : (r : ℕ) {t s : Text} → TypedAs t s → TypedAs (r ∷ t) (r ∷ s)
  spaced : (r : ℕ) {t s : Text} → is_separator r ≡ true → TypedAs t s → TypedAs (r ∷ t) s
  lower_case :
      (q r : ℕ) {t s : Text}
      → b'A' ≤ r
      → r ≤ b'Z'
      → q ≡ r + 32
      → TypedAs t s
      → TypedAs (q ∷ t) (r ∷ s)

squash-append : (s t : Text) → squash (s ++ t) ≡ squash s ++ squash t
unfolding squash
squash-append [] t = refl
squash-append (r ∷ s) t = ground (arith, squash-append s t)

squash_alpha : (s : Text) → all is_alpha s ≡ true → squash s ≡ s
unfolding squash
squash_alpha [] h = refl
squash_alpha (r ∷ s) h = ground (arith, squash_alpha s)

squash_digit : (s : Text) → all is_digit s ≡ true → squash s ≡ s
unfolding squash
squash_digit [] h = refl
squash_digit (r ∷ s) h = ground (arith, squash_digit s)

-- The runs of a well-formed address, put together again.
runs-append : (s : Text) → take 3 s ++ (take 4 (drop 3 s) ++ (take 3 (drop 7 s) ++ drop 10 s)) ≡ s
runs-append s = rw (
  ← drop-drop 7 3 s,
  take-append-drop 3 (drop 7 s),
  ← drop-drop 3 4 s,
  take-append-drop 4 (drop 3 s),
  take-append-drop 3 s,
)

squash_runs :
    (l d l' d' : Text)
    → all is_alpha l ≡ true
    → all is_digit d ≡ true
    → all is_alpha l' ≡ true
    → all is_digit d' ≡ true
    → squash (l ++ (d ++ (l' ++ d'))) ≡ l ++ (d ++ (l' ++ d'))
squash_runs l d l' d' a b c e = rw (
  squash-append,
  squash-append d,
  squash-append l',
  squash_alpha l a,
  squash_digit d b,
  squash_alpha l' c,
  squash_digit d' e,
)

squash_valid : (s : Text) → address_valid s ≡ true → squash s ≡ s
unfolding address_valid
squash_valid s h = rw (← runs-append s) (
    squash_runs (take 3 s) (take 4 (drop 3 s)) (take 3 (drop 7 s)) (drop 10 s) (ground arith)
      (ground arith) (ground arith) (ground arith))

squash-TypedAs : {t s : Text} → TypedAs t s → squash t ≡ squash s
unfolding squash
squash-TypedAs done = refl
squash-TypedAs (same r h) = ground (arith, squash-TypedAs h)
squash-TypedAs (spaced r e h) = ground (arith, squash-TypedAs h)
squash-TypedAs (lower_case q r lo hi e h) = ground (arith, squash-TypedAs h)

-- However a person types a well-formed address, with spaces, hyphens, underscores and tabs
-- anywhere and its letters in either case, `AddressNormalize` returns that address.
pub address_normalize_typed :
    (t s : Text) → TypedAs t s → address_valid s ≡ true → address_normalize t ≡ ok s
unfolding address_normalize
address_normalize_typed t s h v = rw (squash-TypedAs h, squash_valid s v, v)

TypedAs-refl : (s : Text) → TypedAs s s
TypedAs-refl [] = TypedAs.done
TypedAs-refl (r ∷ s) = TypedAs.same r (TypedAs-refl s)

TypedAs-append : {t s t' s' : Text} → TypedAs t s → TypedAs t' s' → TypedAs (t ++ t') (s ++ s')
TypedAs-append done h = h
TypedAs-append (same r g) h = TypedAs.same r (TypedAs-append g h)
TypedAs-append (spaced r e g) h = TypedAs.spaced r e (TypedAs-append g h)
TypedAs-append (lower_case q r lo hi e g) h = TypedAs.lower_case q r lo hi e (TypedAs-append g h)

-- `AddressNormalize` reads back what `AddressFormat` displays of a well-formed address.
pub address_normalize-address_format :
    (s : Text) → address_valid s ≡ true → address_normalize (address_format s) ≡ ok s
unfolding address_format
address_normalize-address_format s v =
    let spaced_runs : TypedAs
        (take 3 s
          ++ (b' ' ∷ (take 4 (drop 3 s) ++ (b' ' ∷ (take 3 (drop 7 s) ++ (b' ' ∷ drop 10 s))))))
        (take 3 s ++ (take 4 (drop 3 s) ++ (take 3 (drop 7 s) ++ drop 10 s))) =
      TypedAs-append (TypedAs-refl (take 3 s)) (
        TypedAs.spaced b' ' refl (
          TypedAs-append (TypedAs-refl (take 4 (drop 3 s))) (
            TypedAs.spaced b' ' refl (
              TypedAs-append (TypedAs-refl (take 3 (drop 7 s)))
                (TypedAs.spaced b' ' refl (TypedAs-refl (drop 10 s))))))) in
    rw v (address_normalize_typed _ s (rw (runs-append s) at spaced_runs) v)

chosen :
    (b : Bool) (x t : Text)
    → (if b then ok x else err address_malformed) ≡ ok t
    → (x ≡ t) × (b ≡ true)
chosen true x t h = (cc, refl)
chosen false x t h = cc

-- What `AddressNormalize` returns is well formed, and normalizing it again changes nothing.
pub address_normalize_idem :
    (s t : Text)
    → address_normalize s ≡ ok t
    → (address_valid t ≡ true) × (address_normalize t ≡ ok t)
unfolding address_normalize
address_normalize_idem s t h =
    let (e, v) = chosen (address_valid (squash s)) (squash s) t h in
    let v' : address_valid t ≡ true = rw e at v in (v', rw (squash_valid t v', v'))
