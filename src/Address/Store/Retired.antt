-- ===== src/Address/Store/Retired.antt =====
-- address_impl.go: what is left of an address once `Retire` has returned.
use mwanachama_backend_comm.Base.{
  ℕ, Bool, true, false, not, ◌&&◌, ◌≡◌, ◌≢◌, refl, inl, inr, some, List, [], ◌∷◌, String, arith,
  ltb, count, find_first, is_some, Bool-cases, Option-cases, ℤ, time_or, ap, ◌∙◌,
}
use mwanachama_backend_comm.Errors.{ok}
use mwanachama_backend_comm.Exec.Steps.{Result-cases}
use mwanachama_backend_comm.Validate.{check}
use mwanachama_backend_comm.Sql.Rows.{map_where}
use mwanachama_backend_comm.Sql.Counts.{count-map_where, count_none}
use mwanachama_backend_comm.Address.State.{Address, AddressSettings, settings_validate}
use mwanachama_backend_comm.Address.Store.{
  AddressEngine, AddressDb, retire, update_settings, resolve, resolves, is_numbered,
  is_active_number, retired_on, same_bytes, unexpired_at, settled_probe, settled_with,
}
use mwanachama_backend_comm.Roles.{Role}

-- No row of the number is unretired.
abbrev IsRetired : String → ℤ → List Address → Type 0
IsRetired actor index rows = count (is_active_number actor index) rows ≡ 0

unretired :
    (numbered retired same live : Bool)
    → (same && (not retired && live)) ≡ true
    → (numbered && not retired) ≡ false
    → numbered ≡ false
unretired false retired same live found gone = refl
unretired true true true live found gone = cc
unretired true true false live found gone = cc
unretired true false same live found gone = cc

found_resolved :
    (actor : String) (index : ℤ) (hash : List ℕ) (now : ℕ) (a : Address) (rows : List Address)
    → IsRetired actor index rows
    → find_first (resolves hash now) rows ≡ some a
    → is_numbered actor index a ≡ false
found_resolved actor index hash now a [] gone found = cc
found_resolved actor index hash now a (x ∷ rows) gone found =
    elim (Bool-cases (resolves hash now x)) [
      | inl met ↦
          let same : x ≡ a = ground arith in
          let gone_x : is_active_number actor index x ≡ false =
            elim (Bool-cases (is_active_number actor index x)) [
              | inl unretired_x ↦ absurd (ground arith)
              | inr gone ↦ gone
            ] in
          rw (← same) (
            unretired (is_numbered actor index x) (is_some x.retired_at) (same_bytes x.hash hash)
              (unexpired_at now x.settings.expires_at) met gone_x)
      | inr other ↦ found_resolved actor index hash now a rows (ground arith) (ground arith)
    ]

module _ (g : AddressEngine) where
  retire-IsRetired :
      (now : ℕ) (actor : String) (index : ℤ) (at : ℕ) (s : AddressDb)
      → (retire g now actor index at s).0 ≡ ok tt
      → IsRetired actor index (retire g now actor index at s).1.addresses
  unfolding retire
  retire-IsRetired now actor index at s h =
      let q = is_active_number actor index in
      let set = retired_on (time_or at now) in
      let own = count_none (λ r. q r && q (set r)) s.addresses (λ r. ground arith) in
      let others = count_none (λ r. not (q r) && q r) s.addresses (λ r. ground arith) in
      let split = count-map_where q q set s.addresses in
      elim (g.address_table.update_law q set s.addresses) [
        | inr (d, failed) ↦ absurd (ground arith)
        | inl done ↦
            let after : IsRetired actor index (map_where q set s.addresses) =
              omega (arith, own, others, split) in
            let rows : (retire g now actor index at s).1.addresses ≡ map_where q set s.addresses =
              elim (Bool-cases (ltb 0 (count q s.addresses))) [
                | inl met ↦ ground arith
                | inr nobody ↦ ground arith
              ] in
            ap (count q) rows ∙ after
      ]

  retire_refused :
      (now : ℕ) (actor : String) (index : ℤ) (at : ℕ) (s : AddressDb)
      → IsRetired actor index s.addresses
      → (retire g now actor index at s).0 ≢ ok tt
  unfolding retire
  retire_refused now actor index at s gone h =
      elim (g.address_table.update_law (is_active_number actor index) (retired_on (time_or at now))
        s.addresses) [ inr (d, failed) ↦ ground arith | inl done ↦ ground arith ]

  update_settings_refused :
      (now : ℕ) (actor : String) (index : ℤ) (set : AddressSettings) (a : Address) (s : AddressDb)
      → IsRetired actor index s.addresses
      → (update_settings g now actor index set s).0 ≢ ok a
  unfolding update_settings
  update_settings_refused now actor index set a s gone h =
      elim (Result-cases (settings_validate g.zones set)) [
        | inl (e, fails) ↦ ground arith
        | inr (u, valid) ↦
            elim (Result-cases (
              check g.spec Role.address (g.encode_address (settled_probe g now actor index set)))) [
                | inl (e, fails) ↦ ground arith
                | inr (v, allowed) ↦
                    elim (g.address_table.update_law (is_active_number actor index)
                      (settled_with set) s.addresses) [
                        | inr (d, failed) ↦ ground arith
                        | inl done ↦ ground arith
                      ]
              ]
      ]

  resolve_passes :
      (now : ℕ) (hash : List ℕ) (actor : String) (index : ℤ) (a : Address) (s : AddressDb)
      → IsRetired actor index s.addresses
      → (resolve g now hash s).0 ≡ ok a
      → is_numbered actor index a ≡ false
  unfolding resolve
  resolve_passes now hash actor index a s gone h =
      elim (g.address_table.take_law (resolves hash now) s.addresses) [
        | inr (d, failed) ↦ absurd (ground arith)
        | inl read ↦ elim (Option-cases (find_first (resolves hash now) s.addresses)) [
          | inl missing ↦ absurd (ground arith)
          | inr (b, found) ↦
              let same : b ≡ a = ground arith in
              let other = found_resolved actor index hash now b s.addresses gone found in
              rw (← same) other
        ]
      ]

  -- After `Retire` has returned without an error, from whatever tables and over a database that
  -- may fail at any statement, no address of that owner and number can be retired again or given
  -- new settings, and `Resolve` returns none of that owner and number for any hash, at any time.
  pub retire_once :
      (now later : ℕ) (actor : String) (index : ℤ) (at again : ℕ) (set : AddressSettings)
      (hash : List ℕ) (a b : Address) (s : AddressDb)
      → (retire g now actor index at s).0 ≡ ok tt
      → is_numbered actor index b ≡ true
      → ((retire g later actor index again (retire g now actor index at s).1).0 ≢ ok tt)
        × ((update_settings g later actor index set (retire g now actor index at s).1).0 ≢ ok a)
        × ((resolve g later hash (retire g now actor index at s).1).0 ≢ ok b)
  retire_once now later actor index at again set hash a b s h numbered =
      let gone = retire-IsRetired now actor index at s h in
      let after = (retire g now actor index at s).1 in
      (
        retire_refused later actor index again after gone,
        update_settings_refused later actor index set a after gone,
        λ e. let other = resolve_passes later hash actor index b after gone e in cc,
      )
