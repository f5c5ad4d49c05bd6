-- ===== src/Probe/Dialled.antt =====
-- What the loops of probe.py over the addresses reach.
use lite_checker.Prelude.{
  true, false, List, [], ◌∷◌, ◌≡◌, inl, inr, refl, Outcome, returned, raised, xray_unavailable,
  Bool-cases, Outcome-cases, All, Some, string_eq,
}
use lite_checker.Models.{
  Ip, TargetConfig, ProbeResult, CheckKind, up, down, unknown, e2e, tls, tcp, vless_e2e, xray,
  policy, vpn, sni,
}
use lite_checker.Probe.{
  Network, DiagnosticResult, TunnelResult, Round, stop, next, VpnState, SniState, after_tunnel,
  after_tcp, vpn_round, vpn_verdict, vpn_loop, after_tls, sni_round, sni_verdict, sni_loop, dial,
  bound_target, continue_with,
}
use lite_checker.Probe.Reached.{
  JudgedOutcome, JudgedOutcome-map, Reaches, by_tls, by_tunnel, result-Judged,
}

module _ (n : Network) (t : TargetConfig) where
  -- A round that stops reports UP only if it reached its address, and never DOWN; one that goes on
  -- did not reach it.
  abbrev RoundJudged : {S : Type 0} → CheckKind → Ip → Round S → Type 0
  RoundJudged k a (stop o) = JudgedOutcome (Reaches n t a k) ⊥ o
  RoundJudged k a (next s) = ¬ Reaches n t a k

  abbrev LoopJudged : CheckKind → List Ip → Outcome ProbeResult → Type 0
  LoopJudged k ips o =
      JudgedOutcome (Some (λ a. Reaches n t a k) ips) (All (λ a. ¬ Reaches n t a k) ips) o

  continue_with-Judged :
      {S : Type 0} (k : CheckKind) (a : Ip) (rest : List Ip) (r : Round S)
      (loop : S → Outcome ProbeResult)
      → RoundJudged k a r
      → ((s : S) → LoopJudged k rest (loop s))
      → LoopJudged k (a ∷ rest) (continue_with r loop)
  continue_with-Judged k a rest (stop o) loop h ih = JudgedOutcome-map o inl (λ x. absurd x) h
  continue_with-Judged k a rest (next s) loop h ih =
      JudgedOutcome-map (loop s) inr (λ none_of. (h, none_of)) (ih s)

  module _ (ips : List Ip) where
    -- a failed TCP check, or a raised one, reaches nothing
    refused :
        (a : Ip) (k : CheckKind) {d : DiagnosticResult}
        → n.tcp_check t a ≡ returned d
        → d.ok ≡ false
        → ¬ Reaches n t a k
    refused a vpn e f (by_tunnel d' b u e' f' _ _ _) = cc
    refused a sni e f (by_tls d' u e' f' _ _) = cc

    no_canary :
        (a : Ip) (b : TargetConfig) (u : TunnelResult)
        → bound_target n.ip_text t a ≡ returned b
        → n.tunnel_check b ≡ returned u
        → u.canary_ok ≡ false
        → ¬ Reaches n t a vpn
    no_canary a b u e f g (by_tunnel d' b' u' _ _ e' f' g') = no_tunnel b' u' e' f' g'
      where
        no_tunnel :
            (b' : TargetConfig) (u' : TunnelResult)
            → bound_target n.ip_text t a ≡ returned b'
            → n.tunnel_check b' ≡ returned u'
            → u'.canary_ok ≡ true
            → ⊥
        no_tunnel b' u' e' f' g' = cc

    no_handshake :
        (a : Ip) (u : DiagnosticResult)
        → n.tls_check t a ≡ returned u
        → u.ok ≡ false
        → ¬ Reaches n t a sni
    no_handshake a u e f (by_tls d' u' _ _ e' f') = cc

    after_tunnel-Judged :
        (a : Ip) (d : DiagnosticResult) (b : TargetConfig) (o : Outcome TunnelResult)
        → n.tcp_check t a ≡ returned d
        → d.ok ≡ true
        → bound_target n.ip_text t a ≡ returned b
        → n.tunnel_check b ≡ o
        → RoundJudged vpn a (after_tunnel n t ips d o)
    unfolding after_tunnel
    after_tunnel-Judged a d b (raised (xray_unavailable c)) e f g h =
        result-Judged (Reaches n t a vpn) ⊥ t unknown xray _ _ _ tt
    after_tunnel-Judged a d b (returned u) e f g h = elim (Bool-cases u.canary_ok) [
      | inl k ↦
          simp k (result-Judged (Reaches n t a vpn) ⊥ t up e2e _ _ _ (by_tunnel d b u e f g h k))
      | inr k ↦ simp k (no_canary a b u g h k)
    ]
    after_tunnel-Judged a d b _ e f g h =
        result-Judged (Reaches n t a vpn) ⊥ t unknown xray _ _ _ tt

    vpn_round-Judged : (a : Ip) (s : VpnState) → RoundJudged vpn a (vpn_round n t ips a s)
    unfolding vpn_round after_tcp
    vpn_round-Judged a s = elim (Outcome-cases (n.tcp_check t a)) [
      | inr (x, e) ↦ rw (e, RoundJudged) tt
      | inl (d, e) ↦
          rw (e, RoundJudged)
            (elim (Bool-cases d.ok) [
              | inr f ↦ simp f (refused a vpn e f)
              | inl f ↦ simp f (elim (Outcome-cases (bound_target n.ip_text t a)) [
                | inr (x, g) ↦ rw (g, RoundJudged) tt
                | inl (b, g) ↦
                    rw (g, RoundJudged) (after_tunnel-Judged a d b (n.tunnel_check b) e f g refl)
              ])
            ])
    ]

    vpn_loop-Judged :
        (rest : List Ip) (s : VpnState) → LoopJudged vpn rest (vpn_loop n t ips rest s)
    unfolding vpn_loop vpn_verdict
    vpn_loop-Judged [] s = elim (Bool-cases s.tcp_succeeded) [
      | inl e ↦ simp e (result-Judged ⊥ Unit t down vless_e2e _ _ _ tt)
      | inr e ↦ simp e (result-Judged ⊥ Unit t down tcp _ _ _ tt)
    ]
    vpn_loop-Judged (a ∷ rest) s =
        continue_with-Judged vpn a rest _ _ (vpn_round-Judged a s) (vpn_loop-Judged rest)

    after_tls-Judged :
        (a : Ip) (d : DiagnosticResult) (o : Outcome DiagnosticResult)
        → n.tcp_check t a ≡ returned d
        → d.ok ≡ true
        → n.tls_check t a ≡ o
        → RoundJudged sni a (after_tls n t ips d o)
    unfolding after_tls
    after_tls-Judged a d (raised x) e f g =
        result-Judged (Reaches n t a sni) ⊥ t unknown policy _ _ _ tt
    after_tls-Judged a d (returned u) e f g = elim (Bool-cases u.ok) [
      | inl k ↦ simp k (result-Judged (Reaches n t a sni) ⊥ t up tls _ _ _ (by_tls d u e f g k))
      | inr k ↦ simp k (no_handshake a u g k)
    ]

    sni_round-Judged : (a : Ip) (s : SniState) → RoundJudged sni a (sni_round n t ips a s)
    unfolding sni_round
    sni_round-Judged a s = elim (Outcome-cases (n.tcp_check t a)) [
      | inr (x, e) ↦ rw (e, RoundJudged) tt
      | inl (d, e) ↦
          rw (e, RoundJudged)
            (elim (Bool-cases d.ok) [
              | inr f ↦ simp f (refused a sni e f)
              | inl f ↦ simp f (after_tls-Judged a d (n.tls_check t a) e f refl)
            ])
    ]

    sni_loop-Judged :
        (rest : List Ip) (s : SniState) → LoopJudged sni rest (sni_loop n t ips rest s)
    unfolding sni_loop sni_verdict
    sni_loop-Judged [] s = elim (Bool-cases s.tcp_succeeded) [
      | inl e ↦ simp e (result-Judged ⊥ Unit t down _ _ _ _ tt)
      | inr e ↦ simp e (result-Judged ⊥ Unit t down tcp _ _ _ tt)
    ]
    sni_loop-Judged (a ∷ rest) s =
        continue_with-Judged sni a rest _ _ (sni_round-Judged a s) (sni_loop-Judged rest)

    pub dial-Judged : (k : CheckKind) → LoopJudged k ips (dial n t k ips)
    unfolding dial
    dial-Judged vpn = vpn_loop-Judged ips _
    dial-Judged sni = sni_loop-Judged ips _
