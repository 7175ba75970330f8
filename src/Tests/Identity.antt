-- ===== src/Tests/Identity.antt =====
-- One object of a mounted domain: its identity, and back.
use mwanachama_backend_comm.Base.{◌≡◌, refl, some, ◌==◌}
use mwanachama_backend_comm.Errors.{ok}
use mwanachama_backend_comm.Validate.{holds}
use mwanachama_backend_comm.Identity.{
  Identities, Mounted, row_exists, stable_identity, resolve_identity,
}

abbrev plain : Identities
plain = record {
  write = λ owner name path. ok path;
  parse = λ raw. ok (record { owner = "comm"; instance_name = "main"; identity = raw });
}

abbrev mounted : Mounted
mounted = record {
  instance_name = "main";
  mount_name = "talk";
  has_row = λ object. some (λ id. ok (id == "m1"));
}

written : stable_identity plain mounted "report" "m1" ≡ ok "talk/report/m1"
unfolding stable_identity row_exists holds
written = refl

resolved : resolve_identity plain mounted "talk/report/m1" ≡ ok ("report", "m1")
unfolding resolve_identity row_exists holds
resolved = refl
