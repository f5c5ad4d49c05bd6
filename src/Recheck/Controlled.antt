-- ===== src/Recheck/Controlled.antt =====
-- The second pass of recheck.py, and the control checks behind its results.
use lite_checker.Prelude.{
  String, true, false, List, [], ◌∷◌, ◌≡◌, ◌<◌, inl, inr, arith, map, ltb, ◌&&◌, string_eq, All,
  Some, Bool-cases,
}
use lite_checker.Models.{
  TargetConfig, ProbeResult, ProbeStage, down, deadline, agent_network, policy,
}
use lite_checker.Probe.{ControlResult}
use lite_checker.Recheck.{
  Pass, is_down, uncertain, retry_targets, subset, batch_valid, withdraw, any_down, unknown_all,
  closing_check, closing, recheck_delay, reprobe, after_check, second_pass, ids,
}
use lite_checker.Recheck.Subsets.{
  All-Some, All-of_Some, subset_refl, ids-map-uncertain, ids-withdraw, status_beq_iff,
}

module _ (P : ProbeResult → Type 0) where
  -- DOWN only with the evidence `P`
  abbrev pub DownIs : List ProbeResult → Type 0
  DownIs = All (λ r. r.status ≡ down → P r)

  DownIs-uncertain :
      (stage : ProbeStage) (code : String) (rs : List ProbeResult)
      → DownIs (map (uncertain stage code) rs)
  unfolding uncertain
  DownIs-uncertain stage code [] = tt
  DownIs-uncertain stage code (r ∷ rest) = (λ e. absurd (cc e), DownIs-uncertain stage code rest)

  DownIs-withdraw :
      (stage : ProbeStage) (code : String) (rs : List ProbeResult) → DownIs (withdraw stage code rs)
  unfolding withdraw uncertain
  DownIs-withdraw stage code [] = tt
  DownIs-withdraw stage code (r ∷ rest) = (
    λ e. elim (Bool-cases (is_down r)) [
      | inl d ↦ absurd (ground arith)
      | inr d ↦ absurd (ground (arith, status_beq_iff r.status))
    ],
    DownIs-withdraw stage code rest,
  )

  DownIs-none : (rs : List ProbeResult) → any_down rs ≡ false → DownIs rs
  unfolding any_down
  DownIs-none [] h = tt
  DownIs-none (r ∷ rest) h =
      (λ e. absurd (ground (arith, status_beq_iff r.status)), DownIs-none rest (ground arith))

  module _ (first : List ProbeResult) where
    -- The second results are those of the failures of the first pass.
    abbrev pub Covers : List ProbeResult → Type 0
    Covers second =
        (subset (ids first) (ids second) ≡ true) × (subset (ids second) (ids first) ≡ true)

    -- So, and a DOWN among them is confirmed.
    abbrev pub Closed : List ProbeResult × ControlResult → Type 0
    Closed (second, c) = Covers second × DownIs second

    Closed-uncertain :
        (stage : ProbeStage) (code : String) (c : ControlResult)
        → Closed (map (uncertain stage code) first, c)
    Closed-uncertain stage code c = (
      rw (ids-map-uncertain stage code first) (subset_refl (ids first), subset_refl (ids first)),
      DownIs-uncertain stage code first,
    )

    Closed-withdraw :
        (stage : ProbeStage) (code : String) (second : List ProbeResult) (c : ControlResult)
        → Covers second
        → Closed (withdraw stage code second, c)
    Closed-withdraw stage code second c h =
        (rw (ids-withdraw stage code second) h, DownIs-withdraw stage code second)

module _ (p : Pass) (targets : List TargetConfig) (first : List ProbeResult)
    (control : ControlResult) where
  -- What stands behind a DOWN after the pass: the control was fine before the first pass, before the
  -- second one and after it, and the second probe itself reported this result in time.
  pub record IsConfirmed (r : ProbeResult) : Type 0 where
    pub control_ok : control.ok ≡ true
    pub before_ok : (p.check_before (p.remaining 3)).ok ≡ true
    pub seen :
        Some
          (λ x. x ≡ r)
          (p.probe (retry_targets targets first) (p.check_before (p.remaining 3)) (p.remaining 5))
    pub in_time : 0 < p.remaining 6
    pub after_ok : (p.check_after (p.remaining 7)).ok ≡ true

  abbrev before : ControlResult
  before = p.check_before (p.remaining 3)

  abbrev raw : List ProbeResult
  raw = p.probe (retry_targets targets first) before (p.remaining 5)

  module _ (ok₁ : control.ok ≡ true) (ok₂ : before.ok ≡ true) where
    closing-Closed :
        (second : List ProbeResult)
        → Covers IsConfirmed first second
        → ((r : ProbeResult) → r.status ≡ down → Some (λ x. x ≡ r) second → Some (λ x. x ≡ r) raw)
        → Closed IsConfirmed first (closing p targets first second before)
    unfolding closing closing_check
    closing-Closed second cover from = elim (Bool-cases (any_down second)) [
      | inr e ↦ rw e (cover, DownIs-none IsConfirmed second e)
      | inl e ↦ rw e (elim (Bool-cases (ltb 0 (p.remaining 6))) [
        | inr f ↦ rw f (Closed-withdraw IsConfirmed first deadline "deadline" second before cover)
        | inl f ↦ rw f (elim (Bool-cases (p.check_after (p.remaining 7)).ok) [
          | inr g ↦ simp g (
              Closed-withdraw IsConfirmed first agent_network "control-failed" second
                (p.check_after (p.remaining 7)) cover)
          | inl g ↦ simp g (
            cover,
            All-of_Some (λ r. r.status ≡ down → IsConfirmed r) second
                (λ r m d. record {
                  control_ok = ok₁;
                  before_ok = ok₂;
                  seen = from r d m;
                  in_time = ground arith;
                  after_ok = g;
                }),
          )
        ])
      ])
    ]

    reprobe-Closed : Closed IsConfirmed first (reprobe p targets first before)
    unfolding reprobe unknown_all
    reprobe-Closed = elim (Bool-cases (batch_valid targets first raw)) [
      | inl e ↦ rw e (closing-Closed raw (valid_covers e) (λ r d m. m))
      | inr e ↦ rw e (
          closing-Closed (map (uncertain policy "recheck-invalid") first)
            (Closed-uncertain IsConfirmed first policy "recheck-invalid" before).0
            (λ r d m. absurd (
              All-Some (λ x. x.status ≡ down → ⊥) _ r
                (DownIs-uncertain (λ x. ⊥) policy "recheck-invalid" first) m d)))
    ]
      where
        valid_covers : batch_valid targets first raw ≡ true → Covers IsConfirmed first raw
        valid_covers e = unfold batch_valid in ground arith

  after_check-Closed :
      control.ok ≡ true → Closed IsConfirmed first (after_check p targets first before)
  unfolding after_check unknown_all
  after_check-Closed ok = elim (Bool-cases before.ok) [
    | inr e ↦ simp e (Closed-uncertain IsConfirmed first agent_network "control-failed" before)
    | inl e ↦ simp e (elim (Bool-cases (ltb 0 (p.remaining 4))) [
      | inr f ↦ simp f (Closed-uncertain IsConfirmed first deadline "deadline" before)
      | inl f ↦ simp f (reprobe-Closed ok e)
    ])
  ]

  pub second_pass-Closed : Closed IsConfirmed first (second_pass p targets first control)
  unfolding second_pass unknown_all
  second_pass-Closed = elim (Bool-cases control.ok) [
    | inr e ↦ simp e (Closed-uncertain IsConfirmed first agent_network "control-failed" control)
    | inl e ↦
        simp e
          (elim (Bool-cases
            (ltb recheck_delay (p.remaining 0) && p.slept && ltb 0 (p.remaining 2))) [
              | inr f ↦ simp f (Closed-uncertain IsConfirmed first deadline "deadline" control)
              | inl f ↦ simp f (after_check-Closed e)
            ])
  ]
