-- ===== src/Measure/Cycle.antt =====
-- `measure_cycle` of measurement.py: the subscription, the first probes, the confirmation of what
-- failed, and the report. The version checker gives codes of at most 64 characters.
pub mod Reported
use lite_checker.Prelude.{
  ℕ, ◌+◌, ◌-◌, ◌/◌, String, Bool, true, false, ◌&&◌, ◌||◌, not, Option, none, some, List, [], ◌∷◌,
  ◌++◌, map, ltb, leb, count, length, keep, any_of, contains, string_eq, nat_eq, ◌==◌, Outcome,
  returned, raised, ◌>>=◌, other_error, validation_error, if◌then◌else◌,
}
use lite_checker.Models.{
  TargetConfig, ProbeResult, ResultStatus, ProbeStage, CheckKind, up, down, unknown, vpn, sni, xray,
  deadline, agent_network, policy, kind_beq, status_beq,
}
use lite_checker.Probe.{ControlResult}
use lite_checker.Recheck.{Pass, Confirmation, confirm_failures}
use lite_checker.State.{Host, File, Reply, ok, refused}
use lite_checker.State.Sequence
use lite_checker.State.Snapshots.{SnapshotDiff}
use lite_checker.State.Snapshots.Store.{Snapshot, SnapshotDecision, SnapshotFile, consider}
use lite_checker.Measure.Xray.{XrayVersion}
use lite_checker.Measure.Probes.{Probed, run_control, run_probes, unknown_results}
use lite_checker.Measure.Run.{
  up_if, no_version, checked_version, code_of, first_run, reconcile_run_status, Verdict, verdict_of,
}
use lite_checker.Measure.Report.{Report, validated}

-- The dependencies of one cycle. `none` of a control or a version check is an exception or a timeout.
-- The readings of the budget are numbered; the confirmation pass has its own.
pub record Cycle : Type 0 where
  pub observed_at : ℕ
  pub remaining : ℕ → ℕ
  pub control : Option ControlResult
  -- the targets that `fetch` and the parser give within the budget
  pub subscription : Option (List TargetConfig)
  pub revision : List TargetConfig → String
  pub snapshot_host : Host
  pub version_checker : Option (Option XrayVersion)
  pub prober : Option (List TargetConfig → ControlResult → ℕ → Probed)
  pub retry_remaining : ℕ → ℕ
  pub retry_slept : Bool
  pub retry_control : Option ControlResult
  pub retry_prober : Option (List TargetConfig → ControlResult → ℕ → Probed)
  pub last_control : Option ControlResult
  pub sequence_host : Host
  pub duration_ms : ℕ
  pub app_version : Option String

-- the files of the agent
pub record Files : Type 0 where
  pub snapshot : SnapshotFile
  pub sequence : File

-- `max(0, int(...))` of the seconds between two times
abbrev pub snapshot_age : ℕ → ℕ → ℕ
snapshot_age now then_ = (now - then_) / 1000000

abbrev pub of_kind : CheckKind → List TargetConfig → List TargetConfig
of_kind k ts = keep (λ t. kind_beq t.check_kind k) ts

-- the refresh: the decision of the store, if there is one
abbrev pub decided : Reply SnapshotDecision → Option SnapshotDecision
decided (ok d) = some d
decided (refused e) = none

module _ (c : Cycle) where
  -- `xray_info`
  unfoldable pub xray_info : ControlResult → XrayVersion
  xray_info control =
      if control.ok
      then elim c.version_checker [ none ↦ no_version | some answer ↦ checked_version answer ]
      else no_version

  abbrev pub probe_if_any : List TargetConfig → ControlResult → List ProbeResult
  probe_if_any [] control = []
  probe_if_any (t ∷ ts) control = run_probes c.prober (t ∷ ts) control (c.remaining 3)

  -- the first results
  unfoldable pub first_results : List TargetConfig → ControlResult → XrayVersion → List ProbeResult
  unfolding unknown_results run_probes
  first_results targets control v =
      if v.compatible
      then run_probes c.prober targets control (c.remaining 3)
      else unknown_results (of_kind vpn targets) xray (code_of v.error_code)
        ++ probe_if_any (of_kind sni targets) control

  -- the pass of `confirm_failures`
  abbrev pub pass : Pass
  pass = record {
    remaining = c.retry_remaining;
    slept = c.retry_slept;
    check_before = run_control c.retry_control;
    probe = run_probes c.retry_prober;
    check_after = run_control c.last_control;
  }

  -- the results of a snapshot, and what they say of the run
  unfoldable pub measure : List TargetConfig → ControlResult → Outcome Verdict
  unfolding first_results first_run reconcile_run_status
  measure targets control = do
    let v = xray_info control
    confirmed ← confirm_failures pass targets (first_results targets control v) control
    returned (verdict_of control v confirmed)

  abbrev pub refresh_with :
      Option (List TargetConfig) → SnapshotFile → Option SnapshotDecision × SnapshotFile
  refresh_with none f = (none, f)
  refresh_with (some targets) f =
      let (d, g) = consider c.revision c.snapshot_host targets c.observed_at f in (decided d, g)

  unfoldable pub refresh : SnapshotFile → Option SnapshotDecision × SnapshotFile
  refresh f = if c.remaining 1 == 0 then (none, f) else refresh_with c.subscription f

  abbrev pub report_of : ℕ → Option SnapshotDecision → Verdict → Report
  report_of sequence d v = record {
    sequence = sequence;
    observed_at = c.observed_at;
    subscription_revision = elim d [ none ↦ none | some s ↦ some s.snapshot.subscription_revision ];
    fresh = elim d [ none ↦ false | some s ↦ true ];
    snapshot_age_seconds = elim d [
      | none ↦ none
      | some s ↦ some (snapshot_age c.observed_at s.snapshot.observed_at)
    ];
    diff = elim d [ none ↦ record { added = []; removed = []; changed = [] } | some s ↦ s.diff ];
    results = v.results;
    control_status = v.control_status;
    run_status = v.run_status;
    run_reason = v.run_reason;
    duration_ms = c.duration_ms;
    xray_version = v.xray_version;
    app_version = c.app_version;
  }

  -- without a snapshot nothing is probed
  unfoldable pub judge : Option SnapshotDecision → ControlResult → Outcome Verdict
  unfolding measure
  judge none control = returned (record {
    results = [];
    control_status = up_if control.ok;
    run_status = unknown;
    run_reason = some "no-valid-snapshot";
    xray_version = none;
  })
  judge (some d) control = measure d.snapshot.targets control

  abbrev pub numbered : Option SnapshotDecision → Verdict → Reply ℕ → Outcome Report
  numbered d v (refused e) = raised other_error
  numbered d v (ok n) = validated (report_of n d v)

  abbrev pub conclude :
      Option SnapshotDecision → SnapshotFile → File → Outcome Verdict → Outcome Report × Files
  conclude d g f (raised e) = (raised e, record { snapshot = g; sequence = f })
  conclude d g f (returned v) =
      let (n, h) = Sequence.next c.sequence_host f in
      (numbered d v n, record { snapshot = g; sequence = h })

  -- `measure_cycle`
  unfoldable pub measure_cycle : Files → Outcome Report × Files
  unfolding refresh judge run_control
  measure_cycle files =
      let control = run_control c.control (c.remaining 0) in
      let (d, g) = refresh files.snapshot in conclude d g files.sequence (judge d control)
