-- ===== src/Dm/Messages/Keys.antt =====
-- dm_message_impl.go: a device has one current key.
use mwanachama_backend_comm.Base.{
  ℕ, false, not, ◌&&◌, ◌≡◌, inl, inr, none, List, String, ◌==◌, arith, count, Bool-cases, time_or,
  id_or,
}
use mwanachama_backend_comm.Errors.{ok}
use mwanachama_backend_comm.Exec.{◌>>=◌}
use mwanachama_backend_comm.Exec.Steps.{bind-ok, ok-pair}
use mwanachama_backend_comm.Sql.Rows.{map_where}
use mwanachama_backend_comm.Sql.Counts.{count-map_where, count_none}
use mwanachama_backend_comm.Sql.Statements.{classified, take, upsert}
use mwanachama_backend_comm.Dm.Types.{DmDeviceKey}
use mwanachama_backend_comm.Dm.Messages.{
  DmDb, DmEngine, on_keys, found, is_key, republished, superseded, retired_key, supersede,
  publish_device_key,
}

superseded-map_where :
    (p : DmDeviceKey) (now : ℕ) (rows : List DmDeviceKey)
    → count (superseded p) (map_where (superseded p) (retired_key now) rows) ≡ 0
superseded-map_where p now rows = ground (
  arith,
  count-map_where (superseded p) (superseded p) (retired_key now) rows,
  count_none (λ r. superseded p r && superseded p (retired_key now r)) rows (λ r. ground arith),
  count_none (λ r. not (superseded p r) && superseded p r) rows (λ r. ground arith),
)

module _ (g : DmEngine) (now : ℕ) (minted : String) where
  supersede-ok :
      (p out : DmDeviceKey) (s s' : DmDb)
      → supersede g now minted p s ≡ (ok out, s')
      → (out.device_id == "") ≡ false
      → count (superseded out) s'.keys ≡ 0
  supersede-ok p out s s' h named = elim (Bool-cases (p.device_id == "")) [
    | inl unnamed ↦ absurd (ground arith)
    | inr device ↦ elim (g.key_table.update_law (superseded p) (retired_key now) s.keys) [
      | inr (d, failed) ↦ absurd (ground arith)
      | inl done ↦
          let is : p ≡ out = ground arith in
          let after : s'.keys ≡ map_where (superseded p) (retired_key now) s.keys = ground arith in
          rw (after, is) (superseded-map_where out now s.keys)
    ]
  ]

  -- A device has one current key: once a key is published for a device, no other key of its actor
  -- and device is left that is not retired.
  pub publish_device_key_alone :
      (given out : DmDeviceKey) (s : DmDb)
      → (publish_device_key g now minted given s).0 ≡ ok out
      → (out.device_id == "") ≡ false
      → count (superseded out) (publish_device_key g now minted given s).1.keys ≡ 0
  unfolding publish_device_key
  publish_device_key_alone given out s h named =
      let k : DmDeviceKey = record given {
        created_at = time_or given.created_at now;
        key_id = id_or given.key_id minted;
        retired_at = none;
      } in
      let write =
        classified (on_keys (upsert g.key_table (is_key k.actor_id k.key_id) (republished k) k)) in
      let read = on_keys (take g.key_table (is_key k.actor_id k.key_id)) in
      let s' = (publish_device_key g now minted given s).1 in
      let last = supersede g now minted in
      let (x, s₁, h₁, r₁) =
        bind-ok write (λ x. do row ← read; p ← found row; last p) s s' out (ok-pair _ out h) in
      let (row, s₂, h₂, r₂) = bind-ok read (λ row. do p ← found row; last p) s₁ s' out r₁ in
      let (p, s₃, h₃, r₃) = bind-ok (found row) last s₂ s' out r₂ in
      supersede-ok p out s₃ s' r₃ named
