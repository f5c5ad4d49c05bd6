-- ===== src/Probe/Batch.antt =====
-- `probe_all`: a batch under a deadline. `asyncio` chooses which tasks finish before it; the choice
-- is a parameter, one flag for each target in order.
use lite_checker.Prelude.{
  ℕ, zero, String, Bool, true, false, none, some, List, [], ◌∷◌, ◌≡◌, refl, arith, Outcome,
  returned, raised, value_error, if◌then◌else◌, All, suc, ◌<◌,
}
use lite_checker.Models.{
  TargetConfig, ProbeResult, ProbeStage, CheckKind, accepts, unknown, deadline, xray, policy, vpn,
  sni, port_in_range, code_fits,
}
use lite_checker.Probe.Total.{probe_target-Explained}
use lite_checker.Probe.Explained.{Answers, Fits, Explained}
use lite_checker.Probe.{Network, ControlResult, result, probe_target}

-- `ProbeStage.POLICY if target.check_kind == "sni" else ProbeStage.XRAY`
abbrev error_stage : CheckKind → ProbeStage
error_stage sni = policy
error_stage vpn = xray

abbrev Settled : TargetConfig → Outcome ProbeResult → Type 0
Settled t o = (r : ProbeResult) × (o ≡ returned r) × Answers t r

-- A result that the validator takes is returned.
Settled-result :
    (t : TargetConfig) (g : ProbeStage) (code : String)
    → port_in_range t.port ≡ true
    → Fits t.check_kind unknown g
    → code_fits (some code) ≡ true
    → Settled t (result t unknown g none [] (some code))
unfolding result accepts
Settled-result t g code p f c = (
  record {
    target_id = t.target_id;
    label = t.label;
    address = t.address;
    port = t.port;
    status = unknown;
    stage = g;
    latency_ms = none;
    resolved_ips = [];
    error_code = some code;
    check_kind = t.check_kind;
  },
  ground arith,
  ground arith,
)

plain-Fits : (k : CheckKind) → Fits k unknown (error_stage k) × Fits k unknown deadline
plain-Fits vpn = (refl, refl)
plain-Fits sni = (refl, refl)

module _ (n : Network) (control : ControlResult) where
  -- The result of one task: unfinished or cancelled at the deadline, returned, or raised.
  unfoldable pub settle : TargetConfig → Bool → Outcome ProbeResult
  settle t done =
      if done
      then elim (probe_target n t control) [
        | returned r ↦ returned r
        | raised e ↦ result t unknown (error_stage t.check_kind) none [] (some "probe-error")
      ]
      else result t unknown deadline none [] (some "deadline")

  unfoldable pub collect : List (TargetConfig × Bool) → Outcome (List ProbeResult)
  collect [] = returned []
  collect ((t, done) ∷ rest) = elim (settle t done) [
    | raised e ↦ raised e
    | returned r ↦ elim (collect rest) [ raised e ↦ raised e | returned rs ↦ returned (r ∷ rs) ]
  ]

  -- `max_concurrency` below 1 is a `ValueError`
  unfoldable pub probe_all : ℕ → List (TargetConfig × Bool) → Outcome (List ProbeResult)
  unfolding collect
  probe_all zero tasks = raised value_error
  probe_all max_concurrency tasks = collect tasks

  -- One result for each task, in the order of the targets.
  abbrev pub Answered : List (TargetConfig × Bool) → List ProbeResult → Type 0
  Answered [] [] = Unit
  Answered ((t, _) ∷ rest) (r ∷ rs) = Answers t r × Answered rest rs
  Answered _ _ = ⊥

  abbrev pub PortsInRange : List (TargetConfig × Bool) → Type 0
  PortsInRange = All (λ p. port_in_range p.0.port ≡ true)

  settle-Settled :
      (t : TargetConfig) → port_in_range t.port ≡ true → (done : Bool) → Settled t (settle t done)
  unfolding settle
  settle-Settled t p false = Settled-result t deadline "deadline" p (plain-Fits t.check_kind).1 refl
  settle-Settled t p true = go (probe_target n t control) (probe_target-Explained n t p control)
    where
      go :
          (o : Outcome ProbeResult)
          → Explained n t o
          → Settled t (elim o [
            | returned r ↦ returned r
            | raised e ↦ result t unknown (error_stage t.check_kind) none [] (some "probe-error")
          ])
      go (returned r) h = (r, refl, h)
      go (raised e) h =
          Settled-result t (error_stage t.check_kind) "probe-error" p (plain-Fits t.check_kind).0
            refl

  collect-Answered :
      (tasks : List (TargetConfig × Bool))
      → PortsInRange tasks
      → (rs : List ProbeResult) × (collect tasks ≡ returned rs) × Answered tasks rs
  unfolding collect
  collect-Answered [] h = ([], refl, tt)
  collect-Answered ((t, done) ∷ rest) h =
      let (r, e, a) = settle-Settled t h.0 done in
      let (rs, f, b) = collect-Answered rest h.1 in
      (r ∷ rs, rw (e, collect) (rw (f, collect) refl), (a, b))

  -- A batch with a positive concurrency over targets whose ports are in range always returns: one
  -- result for each target, in their order, with its id, its kind and its port, and accepted by the
  -- validator, whichever tasks met the deadline and whatever their probes raised.
  pub probe_all-Answered :
      (max_concurrency : ℕ) (tasks : List (TargetConfig × Bool))
      → 0 < max_concurrency
      → PortsInRange tasks
      → (rs : List ProbeResult) × (probe_all max_concurrency tasks ≡ returned rs)
        × Answered tasks rs
  unfolding probe_all
  probe_all-Answered zero tasks m h = elim m [ ]
  probe_all-Answered (suc k) tasks m h = collect-Answered tasks h
