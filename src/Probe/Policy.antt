-- ===== src/Probe/Policy.antt =====
-- What the address policy of `probe_target` lets it dial.
use lite_checker.Prelude.{
  Bool, true, Option, some, List, [], ◌∷◌, ◌≡◌, refl, arith, Outcome, returned, raised, any_of, inl,
  inr, Some,
}
use lite_checker.Models.{Ip, TargetConfig}
use lite_checker.Probe.Addresses.{sort_addresses-Some}
use lite_checker.Security.{is_forbidden_ip}
use lite_checker.Probe.{
  Network, ControlResult, DiagnosticResult, TunnelResult, screen, classify_answers, after_resolve,
  probe_target, parse_all, sort_addresses,
}

module _ (n : Network) (t : TargetConfig) where
  -- The network whose diagnostics are replaced.
  abbrev pub Redialled :
      (TargetConfig → Ip → Outcome DiagnosticResult)
      → (TargetConfig → Ip → Outcome DiagnosticResult)
      → (TargetConfig → Outcome TunnelResult)
      → Network
  Redialled f g h = record n { tcp_check = f; tls_check = g; tunnel_check = h }

  -- The answers parse, and some address among them is one that the policy forbids.
  abbrev pub AnyForbidden : Outcome (List (Option Ip)) → Type 0
  AnyForbidden (raised e) = ⊥
  AnyForbidden (returned raw) =
      (ips : List Ip) × (parse_all raw ≡ some ips)
      × Some (λ a. is_forbidden_ip n.tables n.allow_private_targets a ≡ true) ips

any_of-eq_true : (p : Ip → Bool) (xs : List Ip) → Some (λ a. p a ≡ true) xs → any_of p xs ≡ true
any_of-eq_true p [] h = elim h [ ]
any_of-eq_true p (x ∷ xs) (inl h) = rw h
any_of-eq_true p (x ∷ xs) (inr h) = ground (arith, any_of-eq_true p xs h)

module _ (n : Network) (t : TargetConfig) (f g : TargetConfig → Ip → Outcome DiagnosticResult)
    (h : TargetConfig → Outcome TunnelResult) where
  abbrev m : Network
  m = Redialled n t f g h

  classify_answers-Redialled :
      (raw : List (Option Ip))
      → AnyForbidden n t (returned raw)
      → classify_answers m t raw ≡ classify_answers n t raw
  unfolding classify_answers screen
  classify_answers-Redialled [] k = refl
  classify_answers-Redialled (a ∷ rest) (ips, e, k) =
      rw (e, classify_answers)
        (rw (any_of-eq_true _ (sort_addresses ips) ((sort_addresses-Some _ ips).1 k)) refl)

  after_resolve-Redialled :
      (o : Outcome (List (Option Ip)))
      → AnyForbidden n t o
      → after_resolve m t o ≡ after_resolve n t o
  unfolding after_resolve
  after_resolve-Redialled (raised e) k = elim k [ ]
  after_resolve-Redialled (returned raw) k = classify_answers-Redialled raw k

  -- When all answers can be read and some is a forbidden address, nothing is dialled: the result is
  -- the same whatever the TCP, TLS and tunnel diagnostics would have said, also at the allowed
  -- addresses.
  pub probe_target-Redialled :
      (control : ControlResult)
      → AnyForbidden n t (n.resolve t)
      → probe_target m t control ≡ probe_target n t control
  unfolding probe_target
  probe_target-Redialled control k = rw (after_resolve-Redialled (n.resolve t) k)
