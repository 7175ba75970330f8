-- ===== src/Address/State/Laws.antt =====
-- How the predicates on an address fit together.
use mwanachama_backend_comm.Base.{
  ℕ, zero, suc, true, false, not, ◌≡◌, ◌≢◌, ◌↔◌, refl, Option, none, some, String, ℤ, pos, negsuc,
  arith, eq_iff, ◌==◌, is_some, ◌&&◌, differ,
}
use mwanachama_backend_comm.Errors.{Result, ok}
use mwanachama_backend_comm.Address.Hours.{
  Zones, AddressHours, Mode, unset, closed, silent, other_mode, hours_validate,
}
use mwanachama_backend_comm.Address.State.{
  Address, AddressSettings, is_open, silenced, settings_validate, is_unset, not_positive,
}

module _ (zones : Zones) (a : Address) (now : ℕ) where
  -- An address that is silenced accepts no new conversation either.
  pub silenced-not-is_open : silenced zones a now ≡ true → is_open zones a now ≡ false
  unfolding silenced is_open
  silenced-not-is_open h = ground arith

-- An instant is set exactly when its flavour is.
abbrev pub Paired : Option ℕ → Mode → Type 0
Paired at mode = (at ≡ none) ↔ (mode ≡ unset)

abbrev pub TtlPositive : Option ℤ → Type 0
TtlPositive none = Unit
TtlPositive (some n) = (m : ℕ) × (n ≡ pos (suc m))

abbrev pub HoursValid : Zones → Option AddressHours → Type 0
HoursValid zones none = Unit
HoursValid zones (some h) = hours_validate zones h ≡ ok tt

pub record IsWellFormed (zones : Zones) (s : AddressSettings) : Type 0 where
  pub expiry : Paired s.expires_at s.expiry_mode
  pub ttl : TtlPositive s.message_ttl_seconds
  pub directory : s.listed_at ≢ none → s.public_address ≢ ""
  pub switch : Paired s.disabled_at s.disabled_mode
  pub schedule : HoursValid zones s.hours

differ-Paired :
    (at : Option ℕ) (mode : Mode)
    → differ (not (is_some at)) (is_unset mode) ≡ false
    → Paired at mode
differ-Paired none unset h = (λ e. refl, λ e. refl)
differ-Paired none closed h = cc
differ-Paired none silent h = cc
differ-Paired none (other_mode m) h = cc
differ-Paired (some t) unset h = cc
differ-Paired (some t) closed h = ((λ e. cc), (λ e. cc))
differ-Paired (some t) silent h = ((λ e. cc), (λ e. cc))
differ-Paired (some t) (other_mode m) h = ((λ e. cc), (λ e. cc))

Paired-differ :
    (at : Option ℕ) (mode : Mode)
    → Paired at mode
    → differ (not (is_some at)) (is_unset mode) ≡ false
Paired-differ none unset h = refl
Paired-differ none closed h = cc (h.0 refl)
Paired-differ none silent h = cc (h.0 refl)
Paired-differ none (other_mode m) h = cc (h.0 refl)
Paired-differ (some t) unset h = cc (h.1 refl)
Paired-differ (some t) closed h = refl
Paired-differ (some t) silent h = refl
Paired-differ (some t) (other_mode m) h = refl

not_positive-TtlPositive : (n : Option ℤ) → not_positive n ≡ false → TtlPositive n
not_positive-TtlPositive none h = tt
not_positive-TtlPositive (some (pos zero)) h = cc
not_positive-TtlPositive (some (pos (suc m))) h = (m, refl)
not_positive-TtlPositive (some (negsuc m)) h = absurd (ground arith)

TtlPositive-not_positive : (n : Option ℤ) → TtlPositive n → not_positive n ≡ false
TtlPositive-not_positive none h = refl
TtlPositive-not_positive (some n) (m, e) = rw e (ground arith)

hidden-ne : (at : Option ℕ) (p : String) → (is_some at && p == "") ≡ false → at ≢ none → p ≢ ""
hidden-ne none p h ne = absurd (ne refl)
hidden-ne (some t) p h ne = ground (arith, eq_iff p "")

ne-hidden : (at : Option ℕ) (p : String) → (at ≢ none → p ≢ "") → (is_some at && p == "") ≡ false
ne-hidden none p h = refl
ne-hidden (some t) p h = ground (arith, eq_iff p "", h (λ e. cc))

hours_ok :
    (zones : Zones) (o : Option AddressHours)
    → (elim o as (λ _. Result (Unit {0})) [ none ↦ ok tt | some h ↦ hours_validate zones h ])
      ≡ ok tt
    → HoursValid zones o
hours_ok zones none e = tt
hours_ok zones (some h) e = e

HoursValid-ok :
    (zones : Zones) (o : Option AddressHours)
    → HoursValid zones o
    → (elim o as (λ _. Result (Unit {0})) [ none ↦ ok tt | some h ↦ hours_validate zones h ])
      ≡ ok tt
HoursValid-ok zones none e = refl
HoursValid-ok zones (some h) e = e

-- `AddressSettings.Validate` accepts exactly the settings in which an expiry and a switch-off come
-- with their flavours, a timer is positive, a listed address is public, and the hours validate.
pub settings_validate_iff :
    (zones : Zones) (s : AddressSettings)
    → (settings_validate zones s ≡ ok tt) ↔ IsWellFormed zones s
unfolding settings_validate
settings_validate_iff zones s = (
  λ h. record {
    expiry = differ-Paired s.expires_at s.expiry_mode (ground arith);
    ttl = not_positive-TtlPositive s.message_ttl_seconds (ground arith);
    directory = hidden-ne s.listed_at s.public_address (ground arith);
    switch = differ-Paired s.disabled_at s.disabled_mode (ground arith);
    schedule = hours_ok zones s.hours (ground arith);
  },
  λ w.
      rw
        (
          Paired-differ s.expires_at s.expiry_mode w.expiry,
          TtlPositive-not_positive s.message_ttl_seconds w.ttl,
          ne-hidden s.listed_at s.public_address w.directory,
          Paired-differ s.disabled_at s.disabled_mode w.switch,
        )
        (HoursValid-ok zones s.hours w.schedule),
)
