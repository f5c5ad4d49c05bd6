-- ===== src/Update/Install.antt =====
-- The state of the installation: `validate_install_state` and the reading of the file in
-- update_store.py. A value in the file that has not the types of a state is `unusable`, and so is a
-- file that is unsafe, too large or no JSON.
use lite_checker.Prelude.{
  ℕ, String, Bool, true, false, ◌&&◌, not, Option, none, some, count, ltb, leb, nat_eq, ◌==◌,
  if◌then◌else◌,
}
use lite_checker.Update.Version.{codes, match_version, is_digest}

-- `STATUSES`
pub data Status : Type 0 where
  unconfigured disabled not_due current updated rolled_back failed busy : Status

pub record Pending : Type 0 where
  pub from_version : Option String
  pub to_version : String
  pub sequence : ℕ
  pub digest : String
  pub was_running : Bool

-- the marker of a release that failed
pub record Failed : Type 0 where
  pub sequence : ℕ
  pub digest : String

-- Times are seconds since the epoch.
pub record InstallState : Type 0 where
  pub active : Option String
  pub previous : Option String
  pub highest_sequence : ℕ
  pub highest_digest : Option String
  pub last_checked_at : Option ℕ
  pub pending : Option Pending
  pub failure : Option Failed
  pub status : Status
  pub error : Option String

abbrev pub default_install_state : InstallState
default_install_state = record {
  active = none;
  previous = none;
  highest_sequence = 0;
  highest_digest = none;
  last_checked_at = none;
  pending = none;
  failure = none;
  status = current;
  error = none;
}

abbrev pub is_version : String → Bool
is_version s = elim (match_version (codes s)) [ none ↦ false | some _ ↦ true ]

abbrev pub version_or_none : Option String → Bool
version_or_none none = true
version_or_none (some s) = is_version s

abbrev pub digest_or_none : Option String → Bool
digest_or_none none = true
digest_or_none (some s) = is_digest s

abbrev pub option_absent {ℓ} : {A : Type ℓ} → Option A → Bool
option_absent none = true
option_absent (some a) = false

abbrev pub is_some {ℓ} : {A : Type ℓ} → Option A → Bool
is_some none = false
is_some (some a) = true

abbrev pub valid_pending : Option Pending → Bool
valid_pending none = true
valid_pending (some p) =
    version_or_none p.from_version
    && is_version p.to_version
    && leb 1 p.sequence
    && is_digest p.digest

abbrev pub valid_failure : Option Failed → Bool
valid_failure none = true
valid_failure (some f) = leb 1 f.sequence && is_digest f.digest

abbrev pub valid_error : Option String → Bool
valid_error none = true
valid_error (some e) = leb (count e) 240

-- `validate_install_state`: true where it returns the state
unfoldable pub valid_install : InstallState → Bool
valid_install s =
    version_or_none s.active
    && version_or_none s.previous
    && digest_or_none s.highest_digest
    && not (s.highest_sequence == 0 && is_some s.highest_digest)
    && not (ltb 0 s.highest_sequence && not (is_some s.highest_digest))
    && valid_pending s.pending
    && valid_failure s.failure
    && valid_error s.error

pub data InstallFile : Type 0 where
  missing : InstallFile
  unusable : InstallFile
  stored : InstallState → InstallFile

-- `UpdateStore.read_install` on a host that can read; `none` stands for its `StoreError`
unfoldable pub read_install : InstallFile → Option InstallState
unfolding valid_install
read_install missing = some default_install_state
read_install unusable = none
read_install (stored s) = if valid_install s then some s else none
