-- ===== src/Address/Store/Lookup.antt =====
-- A stored address is found while it is live.
use mwanachama_backend_comm.Base.{
  ℕ, Bool, false, not, ◌&&◌, ◌||◌, ◌≡◌, ◌⊎◌, refl, inl, inr, none, some, List, [], ◌∷◌, String,
  ◌==◌, arith, find_first, keep, Option-cases, is_some,
}
use mwanachama_backend_comm.Errors.{DriverError, driver, Result, ok, err, address_not_found}
use mwanachama_backend_comm.Errors.Classify.{classify}
use mwanachama_backend_comm.Sql.Rows.{sort, insert_sorted}
use mwanachama_backend_comm.Address.State.{
  Address, live, listed, in_directory, is_public, retired, expired,
}
use mwanachama_backend_comm.Address.Store.{
  AddressDb, AddressEngine, same_bytes, resolves, is_listed, resolve, list_listed, unexpired_at,
}

-- What those who hold an address are to find, in the words of models/address.go.
abbrev pub is_live_at : List ℕ → ℕ → Address → Bool
is_live_at hash now a = same_bytes a.hash hash && live a now

abbrev pub lookup : List ℕ → ℕ → List Address → Result Address
lookup hash now rows = elim (find_first (is_live_at hash now) rows) [
  | none ↦ err address_not_found
  | some a ↦ ok a
]

-- What is listed for one who searches: in the directory, public, and not the searcher's own.
abbrev pub is_found : String → ℕ → Address → Bool
is_found exclude now a =
    (in_directory a now && is_public a) && (exclude == "" || not (a.actor_id == exclude))

unexpired_when :
    (a : Address) (now : ℕ)
    → not (is_some a.retired_at) && unexpired_at now a.settings.expires_at ≡ live a now
unfolding live retired expired
unexpired_when a now = ground arith

find_first-same :
    {A : Type 0} (p q : A → Bool) (xs : List A)
    → ((x : A) → p x ≡ q x)
    → find_first p xs ≡ find_first q xs
find_first-same p q [] h = refl
find_first-same p q (x ∷ xs) h = ground (arith, h x, find_first-same p q xs h)

keep-same :
    {A : Type 0} (p q : A → Bool) (xs : List A) → ((x : A) → p x ≡ q x) → keep p xs ≡ keep q xs
keep-same p q [] h = refl
keep-same p q (x ∷ xs) h = ground (arith, h x, keep-same p q xs h)

resolves-is_live_at :
    (hash : List ℕ) (now : ℕ) (a : Address) → resolves hash now a ≡ is_live_at hash now a
resolves-is_live_at hash now a = rw (unexpired_when a now) refl

is_listed-is_found :
    (exclude : String) (now : ℕ) (a : Address) → is_listed exclude now a ≡ is_found exclude now a
unfolding in_directory listed is_public
is_listed-is_found exclude now a = let same = unexpired_when a now in ground arith

put_first : {A : Type 0} (x : A) (xs : List A) → insert_sorted (λ a b. false) x xs ≡ x ∷ xs
put_first x [] = refl
put_first x (y ∷ ys) = refl

unsorted : {A : Type 0} (xs : List A) → sort (λ a b. false) xs ≡ xs
unsorted [] = refl
unsorted (x ∷ xs) = rw (unsorted xs) (put_first x xs)

module _ (g : AddressEngine) (now : ℕ) where
  -- Unless the database fails, with every table as it was, `Resolve` returns the first stored
  -- address of the hash that is live now in the sense of `Live`, or that there is none; and
  -- `ListListed` returns the stored addresses that are in the directory now in the sense of
  -- `InDirectory`, public, and not those of the actor to exclude.
  pub resolve-lookup :
      (hash : List ℕ) (exclude : String) (s : AddressDb)
      → ((resolve g now hash s ≡ (lookup hash now s.addresses, s))
          ⊎ ((d : DriverError) × (resolve g now hash s ≡ (err (driver d), s))))
        × ((list_listed g now exclude now s ≡ (ok (keep (is_found exclude now) s.addresses), s))
            ⊎ ((d : DriverError) × (list_listed g now exclude now s
                  ≡ (err (classify (driver d)), s))))
  unfolding resolve list_listed
  resolve-lookup hash exclude s = (
    elim (g.address_table.take_law (resolves hash now) s.addresses) [
      | inr (d, fails) ↦ inr (d, ground arith)
      | inl read ↦
          let same =
            find_first-same (resolves hash now) (is_live_at hash now) s.addresses
              (resolves-is_live_at hash now) in
          elim (Option-cases (find_first (is_live_at hash now) s.addresses)) [
            | inl missing ↦ inl (ground arith)
            | inr (a, there) ↦ inl (ground arith)
          ]
    ],
    elim (g.address_table.list_law (is_listed exclude now) (λ a b. false) s.addresses) [
      | inr (d, fails) ↦ inr (d, ground arith)
      | inl read ↦
          let same =
            keep-same (is_listed exclude now) (is_found exclude now) s.addresses
              (is_listed-is_found exclude now) in
          let order = unsorted (keep (is_listed exclude now) s.addresses) in inl (ground arith)
    ],
  )
