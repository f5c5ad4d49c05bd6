-- ===== src/Measure/Report.antt =====
-- The fields of `AgentReport` (models.py) that a cycle decides, and their validation.
use lite_checker.Prelude.{
  ℕ, String, Bool, true, false, ◌&&◌, not, Option, none, some, List, [], ◌∷◌, leb, length, contains,
  string_eq, nat_eq, Outcome, returned, raised, validation_error, if◌then◌else◌,
}
use lite_checker.Models.{ProbeResult, ResultStatus, up, down, status_beq}
use lite_checker.State.Snapshots.{SnapshotDiff}

-- the fields of `AgentReport` that the cycle decides
pub record Report : Type 0 where
  pub sequence : ℕ
  pub observed_at : ℕ
  pub subscription_revision : Option String
  pub fresh : Bool
  pub snapshot_age_seconds : Option ℕ
  pub diff : SnapshotDiff
  pub results : List ProbeResult
  pub control_status : ResultStatus
  pub run_status : ResultStatus
  pub run_reason : Option String
  pub duration_ms : ℕ
  pub xray_version : Option (List ℕ)
  pub app_version : Option String

-- `run_reason` in models.py
abbrev pub run_reasons : List String
run_reasons =
    "no-valid-snapshot" ∷ "agent-network" ∷ "xray-version-unavailable" ∷ "xray-version-mismatch"
    ∷ "deadline" ∷ "probe-incomplete" ∷ "direct-interface-changed" ∷ "mass-removal-quarantine" ∷ []

abbrev pub known_reason : Option String → Bool
known_reason none = true
known_reason (some r) = contains run_reasons r

abbrev pub short_version : Option (List ℕ) → Bool
short_version none = true
short_version (some v) = leb (length v) 64

abbrev pub is_none : Option String → Bool
is_none none = true
is_none (some r) = false

-- the validation of the report's own fields: the literals, and the status with its reason
unfoldable pub accepts_report : Report → Bool
accepts_report r =
    not (status_beq r.control_status down)
    && not (status_beq r.run_status down)
    && known_reason r.run_reason
    && short_version r.xray_version
    && (if status_beq r.run_status up then is_none r.run_reason else not (is_none r.run_reason))

abbrev pub validated : Report → Outcome Report
validated r = if accepts_report r then returned r else raised validation_error
