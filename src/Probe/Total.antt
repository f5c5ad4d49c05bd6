-- ===== src/Probe/Total.antt =====
-- The results of `probe_target`, and the exceptions that leave it.
use lite_checker.Prelude.{
  true, Option, List, [], ◌∷◌, ◌≡◌, inl, inr, refl, arith, length, take, Outcome, returned, raised,
  os_error, type_error, value_error, validation_error, xray_unavailable, other_error, ltb, any_of,
  Bool-cases, Option-cases, string_eq,
}
use lite_checker.Models.{Ip, TargetConfig, down, unknown, dns, agent_network, policy, port_in_range}
use lite_checker.Probe.Codes.{control_code_fits}
use lite_checker.Probe.{
  Network, ControlResult, screen, classify_answers, after_resolve, probe_target, parse_all,
  sort_addresses, max_resolved_addresses,
}
use lite_checker.Security.{is_forbidden_ip}
use lite_checker.Probe.Explained.{from_resolver, Explained, plain, few, dial-Explained}

module _ (n : Network) (t : TargetConfig) (port : port_in_range t.port ≡ true) where
  screen-Explained : (ips : List Ip) → Explained n t (screen n t ips)
  unfolding screen
  screen-Explained ips =
      elim (Bool-cases (any_of (is_forbidden_ip n.tables n.allow_private_targets) ips)) [
        | inl e ↦
            rw e (plain n t port unknown policy (take 16 ips) _ refl refl (few n t port ips) refl)
        | inr e ↦ rw e (dial-Explained n t port t.check_kind ips refl)
      ]

  classify_answers-Explained : (raw : List (Option Ip)) → Explained n t (classify_answers n t raw)
  unfolding classify_answers
  classify_answers-Explained [] = plain n t port down dns [] _ refl refl (omega arith) refl
  classify_answers-Explained (a ∷ rest) =
      elim (Bool-cases (ltb max_resolved_addresses (length (a ∷ rest)))) [
        | inl e ↦ rw e (plain n t port unknown policy [] _ refl refl (omega arith) refl)
        | inr e ↦ rw e (elim (Option-cases (parse_all (a ∷ rest))) [
          | inl p ↦
              rw (p, Explained) (plain n t port unknown policy [] _ refl refl (omega arith) refl)
          | inr (ips, p) ↦ rw (p, Explained) (screen-Explained (sort_addresses ips))
        ])
      ]

  after_resolve-Explained :
      (o : Outcome (List (Option Ip))) → n.resolve t ≡ o → Explained n t (after_resolve n t o)
  unfolding after_resolve
  after_resolve-Explained (raised os_error) e =
      plain n t port down dns [] _ refl refl (omega arith) refl
  after_resolve-Explained (raised type_error) e =
      plain n t port unknown policy [] _ refl refl (omega arith) refl
  after_resolve-Explained (raised value_error) e =
      plain n t port unknown policy [] _ refl refl (omega arith) refl
  after_resolve-Explained (raised validation_error) e =
      plain n t port unknown policy [] _ refl refl (omega arith) refl
  after_resolve-Explained (raised (xray_unavailable c)) e = from_resolver e
  after_resolve-Explained (raised other_error) e = from_resolver e
  after_resolve-Explained (returned answers) e = classify_answers-Explained answers

  -- For a target whose port is in range, `probe_target` returns a result of that target which the
  -- validator of `ProbeResult` accepts, or it raises an exception of the resolver, of the TCP
  -- diagnostic or of the binding of an address. So the classification itself never fails.
  pub probe_target-Explained : (control : ControlResult) → Explained n t (probe_target n t control)
  unfolding probe_target
  probe_target-Explained control = elim (Bool-cases control.ok) [
    | inl e ↦ rw e (after_resolve-Explained (n.resolve t) refl)
    | inr e ↦ rw e (
        plain n t port unknown agent_network [] _ refl refl (omega arith)
          (control_code_fits control.error_code))
  ]
