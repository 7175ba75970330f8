-- ===== src/Manager.antt =====
-- manager.go: the methods that do more than call a store.
use mwanachama_backend_comm.Base.{
  ℕ, Bool, false, Option, none, some, List, [], ◌∷◌, String, ◌==◌, ℤ, pos, negsuc, if◌then◌else◌,
}
use mwanachama_backend_comm.Errors.{
  Result, ok, err, no_object, no_such_category, notification_invalid, address_bad_settings,
}
use mwanachama_backend_comm.Exec.{Exec, raise, require, lift, ◌>>=◌, ◌>>◌}
use mwanachama_backend_comm.Roles.{notification_preference}
use mwanachama_backend_comm.Validate.{Field, holds}
use mwanachama_backend_comm.Notification.Types.{NotificationPreference}
use mwanachama_backend_comm.Notification.Store.{
  NotificationDb, NotificationEngine, mark_read, set_preference,
}
use mwanachama_backend_comm.Address.Store.{AddressDb, AddressEngine, retire}

-- The loop over the fields of the object: the last one called `category` decides.
abbrev category_declared : String → Bool → List Field → Bool
category_declared category so_far [] = so_far
category_declared category so_far (f ∷ fs) =
    category_declared category (if f.name == "category" then holds f.values category else so_far) fs

abbrev or_no_object : Option (List Field) → Result (List Field)
or_no_object none = err no_object
or_no_object (some fields) = ok fields

-- The instant that a caller dates a reading with; `parse` is `time.Parse` of RFC 3339.
abbrev read_instant : (String → Option ℕ) → ℕ → String → Result ℕ
read_instant parse now read_at =
    if read_at == ""
    then ok now
    else elim (parse read_at) [ none ↦ err notification_invalid | some at ↦ ok at ]

module _ (g : NotificationEngine) (now : ℕ) (minted : String) where
  pub mark_my_notifications_read :
      (String → Option ℕ) → String → List String → String → Exec NotificationDb ℕ
  mark_my_notifications_read parse caller ids read_at = do
    at ← lift (read_instant parse now read_at)
    mark_read g now minted caller ids at

  pub set_notification_preference_for :
      String → String → Bool → Exec NotificationDb NotificationPreference
  set_notification_preference_for caller category muted = do
    fields ← lift (or_no_object (g.spec notification_preference))
    require (category_declared category false fields) no_such_category
    set_preference g now minted caller category muted

pub retire_my_address : AddressEngine → ℕ → String → ℤ → Exec AddressDb (Unit {0})
retire_my_address g now caller (pos n) = retire g now caller (pos n) now
retire_my_address g now caller (negsuc n) = raise address_bad_settings
