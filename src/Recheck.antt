-- ===== src/Recheck.antt =====
-- recheck.py: one confirmation pass over the failures of a batch. The clock, the sleep, the control
-- checks and the second probe are the record `Pass`; times are in microseconds.
mod Lookup
pub mod Subsets
pub mod Controlled
pub mod Replaced
pub mod Confirmed
pub use Lookup.{ids}
unfoldable pub use Lookup.{find_target, find_result}
use lite_checker.Prelude.{
  ℕ, String, Bool, true, false, Option, none, some, List, [], ◌∷◌, map, ◌&&◌, not, ltb, length,
  keep, contains, string_eq, nat_eq, ◌==◌, if◌then◌else◌, Outcome, returned, raised, other_error,
}
use lite_checker.Models.{
  TargetConfig, ProbeResult, ProbeStage, down, unknown, deadline, agent_network, policy, status_beq,
  kind_beq,
}
use lite_checker.Probe.{ControlResult}

-- What the dependencies of `confirm_failures` answer. `remaining i` is the i-th reading of the
-- budget; the sleep ends in time or runs into its timeout.
pub record Pass : Type 0 where
  pub remaining : ℕ → ℕ
  pub slept : Bool
  pub check_before : ℕ → ControlResult
  pub probe : List TargetConfig → ControlResult → ℕ → List ProbeResult
  pub check_after : ℕ → ControlResult

abbrev pub recheck_delay : ℕ
recheck_delay = 10000000

abbrev pub is_down : ProbeResult → Bool
is_down r = status_beq r.status down

-- `_uncertain`
unfoldable pub uncertain : ProbeStage → String → ProbeResult → ProbeResult
uncertain stage code r = record r {
  status = unknown;
  stage = stage;
  error_code = some code;
  latency_ms = none;
}

-- `[target_map[r.target_id] for r in first if r.target_id in target_map]`
unfoldable pub retry_targets : List TargetConfig → List ProbeResult → List TargetConfig
retry_targets targets [] = []
retry_targets targets (r ∷ rest) =
    let others = retry_targets targets rest in
    elim (find_target targets r.target_id) [ none ↦ others | some t ↦ t ∷ others ]

-- all the ids differ
unfoldable pub distinct : List String → Bool
distinct [] = true
distinct (i ∷ rest) = not (contains rest i) && distinct rest

unfoldable pub subset : List String → List String → Bool
subset [] js = true
subset (i ∷ rest) js = contains js i && subset rest js

-- the second result is of the target that has its id
unfoldable pub same_endpoint : List TargetConfig → ProbeResult → Bool
same_endpoint targets r = elim (find_target targets r.target_id) [
  | none ↦ false
  | some t ↦
      (r.address == t.address) && (nat_eq.same r.port t.port) && kind_beq r.check_kind t.check_kind
]

unfoldable pub all_endpoints : List TargetConfig → List ProbeResult → Bool
all_endpoints targets [] = true
all_endpoints targets (r ∷ rest) = same_endpoint targets r && all_endpoints targets rest

-- the two values of `valid`
unfoldable pub batch_valid : List TargetConfig → List ProbeResult → List ProbeResult → Bool
batch_valid targets first raw =
    nat_eq.same (length raw) (length first)
    && nat_eq.same (length first) (length (retry_targets targets first))
    && distinct (ids raw)
    && subset (ids raw) (ids first)
    && subset (ids first) (ids raw)
    && all_endpoints targets raw

-- a DOWN of the second pass is withdrawn
unfoldable pub withdraw : ProbeStage → String → List ProbeResult → List ProbeResult
withdraw stage code [] = []
withdraw stage code (r ∷ rest) =
    (if is_down r then uncertain stage code r else r) ∷ withdraw stage code rest

unfoldable pub any_down : List ProbeResult → Bool
any_down [] = false
any_down (r ∷ rest) = if is_down r then true else any_down rest

module _ (p : Pass) (targets : List TargetConfig) (first : List ProbeResult) where
  unfoldable pub unknown_all : ProbeStage → String → List ProbeResult
  unknown_all stage code = map (uncertain stage code) first

  unfoldable pub closing_check : List ProbeResult → ControlResult → List ProbeResult × ControlResult
  closing_check second c =
      if c.ok then (second, c) else (withdraw agent_network "control-failed" second, c)

  -- the last control check, after a second pass that still holds a DOWN
  unfoldable pub closing : List ProbeResult → ControlResult → List ProbeResult × ControlResult
  closing second control =
      if any_down second
      then (if ltb 0 (p.remaining 6)
          then closing_check second (p.check_after (p.remaining 7))
          else (withdraw deadline "deadline" second, control))
      else (second, control)

  unfoldable pub reprobe : ControlResult → List ProbeResult × ControlResult
  reprobe control =
      let raw = p.probe (retry_targets targets first) control (p.remaining 5) in
      closing (if batch_valid targets first raw then raw else unknown_all policy "recheck-invalid")
        control

  unfoldable pub after_check : ControlResult → List ProbeResult × ControlResult
  after_check c =
      if not c.ok
      then (unknown_all agent_network "control-failed", c)
      else if ltb 0 (p.remaining 4)
      then reprobe c
      else (unknown_all deadline "deadline", c)

  -- `second` and `control` after the pass
  unfoldable pub second_pass : ControlResult → List ProbeResult × ControlResult
  second_pass control =
      if not control.ok
      then (unknown_all agent_network "control-failed", control)
      else if ltb recheck_delay (p.remaining 0) && p.slept && ltb 0 (p.remaining 2)
      then after_check (p.check_before (p.remaining 3))
      else (unknown_all deadline "deadline", control)

abbrev pub replacement : Option ProbeResult → ProbeResult → ProbeResult
replacement none r = r
replacement (some s) r = s

-- `[replacements.get(r.target_id, r) for r in results]`
unfoldable pub replace_results : List ProbeResult → List ProbeResult → List ProbeResult
replace_results second [] = []
replace_results second (r ∷ rest) =
    replacement (find_result second r.target_id) r ∷ replace_results second rest

-- the local diagnostics; a missing id is a `KeyError`
unfoldable pub attempts :
    List ProbeResult → List ProbeResult → Outcome (List (ProbeResult × ProbeResult))
attempts second [] = returned []
attempts second (r ∷ rest) = elim (find_result second r.target_id) [
  | none ↦ raised other_error
  | some s ↦ elim (attempts second rest) [
    | raised e ↦ raised e
    | returned others ↦ returned ((r, s) ∷ others)
  ]
]

pub record Confirmation : Type 0 where
  pub results : List ProbeResult
  pub control : ControlResult
  pub attempts : List (ProbeResult × ProbeResult)

unfoldable pub finish :
    List ProbeResult → List ProbeResult → List ProbeResult × ControlResult → Outcome Confirmation
finish results first (second, control) = elim (attempts second first) [
  | raised e ↦ raised e
  | returned log ↦
      returned
        (record { results = replace_results second results; control = control; attempts = log })
]

unfoldable pub confirm_first :
    Pass
    → List TargetConfig
    → List ProbeResult
    → ControlResult
    → List ProbeResult
    → Outcome Confirmation
confirm_first p targets results control [] =
    returned (record { results = results; control = control; attempts = [] })
confirm_first p targets results control (r ∷ rest) =
    finish results (r ∷ rest) (second_pass p targets (r ∷ rest) control)

unfoldable pub confirm_failures :
    Pass → List TargetConfig → List ProbeResult → ControlResult → Outcome Confirmation
confirm_failures p targets results control =
    confirm_first p targets results control (keep is_down results)
