-- ===== src/Probe/Evidence.antt =====
-- What stands behind the verdicts UP and DOWN of `probe_target`.
use lite_checker.Prelude.{
  Bool, false, Option, List, [], ◌∷◌, ◌≡◌, inl, inr, refl, arith, Outcome, returned, raised,
  os_error, type_error, value_error, validation_error, xray_unavailable, other_error, length, ltb,
  any_of, Bool-cases, Option-cases, All, Some, string_eq,
}
use lite_checker.Models.{Ip, TargetConfig, down, unknown, dns, agent_network, policy}
use lite_checker.Security.{is_forbidden_ip}
use lite_checker.Probe.{
  Network, ControlResult, dial, screen, classify_answers, after_resolve, probe_target, parse_all,
  sort_addresses, max_resolved_addresses,
}
use lite_checker.Probe.Reached.{
  JudgedOutcome, JudgedOutcome-map, Reachable, Reaches, Unreachable, no_address, no_answer, no_name,
  result-Judged,
}
use lite_checker.Probe.Dialled.{dial-Judged}

module _ (n : Network) (t : TargetConfig) where
  abbrev forbidden : Ip → Bool
  forbidden = is_forbidden_ip n.tables n.allow_private_targets

  -- an allowed address among those that were dialled
  reachable :
      (ips : List Ip)
      → any_of forbidden ips ≡ false
      → Some (λ a. Reaches n t a t.check_kind) ips
      → Reachable n t
  reachable [] h r = elim r [ ]
  reachable (a ∷ rest) h (inl r) = record { at = a; allowed = ground arith; reached = r }
  reachable (a ∷ rest) h (inr r) = reachable rest (ground arith) r

  screen-Judged :
      (ips : List Ip)
      → JudgedOutcome (Reachable n t) (All (λ a. ¬ Reaches n t a t.check_kind) ips) (screen n t ips)
  unfolding screen
  screen-Judged ips = elim (Bool-cases (any_of forbidden ips)) [
    | inl e ↦ rw e (result-Judged _ _ t unknown policy _ _ _ tt)
    | inr e ↦ rw e (
        JudgedOutcome-map (dial n t t.check_kind ips) (reachable ips e) (λ h. h)
          (dial-Judged n t ips t.check_kind))
  ]

  classify_answers-Judged :
      (raw : List (Option Ip))
      → n.resolve t ≡ returned raw
      → JudgedOutcome (Reachable n t) (Unreachable n t) (classify_answers n t raw)
  unfolding classify_answers
  classify_answers-Judged [] h = result-Judged _ _ t down dns _ _ _ (no_answer h)
  classify_answers-Judged (a ∷ rest) h =
      elim (Bool-cases (ltb max_resolved_addresses (length (a ∷ rest)))) [
        | inl e ↦ rw e (result-Judged _ _ t unknown policy _ _ _ tt)
        | inr e ↦ rw e (elim (Option-cases (parse_all (a ∷ rest))) [
          | inl p ↦ rw (p, JudgedOutcome) (result-Judged _ _ t unknown policy _ _ _ tt)
          | inr (ips, p) ↦
              rw (p, JudgedOutcome)
                (JudgedOutcome-map (screen n t (sort_addresses ips)) (λ r. r)
                  (no_address (a ∷ rest) ips h p) (screen-Judged (sort_addresses ips)))
        ])
      ]

  after_resolve-Judged :
      (o : Outcome (List (Option Ip)))
      → n.resolve t ≡ o
      → JudgedOutcome (Reachable n t) (Unreachable n t) (after_resolve n t o)
  unfolding after_resolve
  after_resolve-Judged (raised os_error) h = result-Judged _ _ t down dns _ _ _ (no_name h)
  after_resolve-Judged (raised type_error) h = result-Judged _ _ t unknown policy _ _ _ tt
  after_resolve-Judged (raised value_error) h = result-Judged _ _ t unknown policy _ _ _ tt
  after_resolve-Judged (raised validation_error) h = result-Judged _ _ t unknown policy _ _ _ tt
  after_resolve-Judged (raised (xray_unavailable c)) h = tt
  after_resolve-Judged (raised other_error) h = tt
  after_resolve-Judged (returned answers) h = classify_answers-Judged answers h

  -- A verdict of `probe_target` has its evidence. UP: some address that the policy allows was
  -- reached end to end (through the bound tunnel, or by a TLS handshake for an SNI check). DOWN: the
  -- name did not resolve, or none of the resolved addresses could be reached that way. So neither
  -- DNS nor TCP alone makes a target UP, and no failure of the agent makes it DOWN.
  pub probe_target-Judged :
      (control : ControlResult)
      → JudgedOutcome (Reachable n t) (Unreachable n t) (probe_target n t control)
  unfolding probe_target
  probe_target-Judged control = elim (Bool-cases control.ok) [
    | inl e ↦ rw e (after_resolve-Judged (n.resolve t) refl)
    | inr e ↦ rw e (result-Judged _ _ t unknown agent_network _ _ _ tt)
  ]
