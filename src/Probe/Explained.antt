-- ===== src/Probe/Explained.antt =====
-- The results of the loops of probe.py over the addresses.
use lite_checker.Prelude.{
  ℕ, String, true, Option, none, some, List, [], ◌∷◌, ◌≡◌, ◌≤◌, inl, inr, refl, arith, length, take,
  length-take, Outcome, returned, raised, Exc, xray_unavailable, not, ◌&&◌, Bool-cases,
  Outcome-cases, string_eq, ◌==◌,
}
use lite_checker.Models.{
  Ip, TargetConfig, ProbeResult, ResultStatus, ProbeStage, CheckKind, accepts, up, down, unknown,
  e2e, tls, tls_handshake, tls_certificate, tcp, vless_e2e, xray, policy, vpn, sni, status_by_stage,
  status_beq, foreign_stage, port_in_range, code_fits,
}
use lite_checker.Probe.Codes.{tcp_code_fits, tunnel_code_fits, tls_code_fits, xray_code_fits}
use lite_checker.Probe.{
  Network, DiagnosticResult, TunnelResult, Round, stop, next, VpnState, SniState, result,
  after_tunnel, after_tcp, vpn_round, vpn_verdict, vpn_loop, after_tls, sni_round, sni_verdict,
  sni_loop, dial, bound_target, map_error_code, tls_codes, continue_with,
}

-- A result belongs to its target, and passes the validator.
pub record Answers (t : TargetConfig) (r : ProbeResult) : Type 0 where
  pub id : r.target_id ≡ t.target_id
  pub kind : r.check_kind ≡ t.check_kind
  pub port : r.port ≡ t.port
  pub valid : accepts r ≡ true

module _ (n : Network) (t : TargetConfig) where
  -- Where an exception comes from.
  pub data Cause (e : Exc) : Type 0 where
    from_resolver : n.resolve t ≡ raised e → Cause e
    from_tcp : (a : Ip) → n.tcp_check t a ≡ raised e → Cause e
    from_binding : (a : Ip) → bound_target n.ip_text t a ≡ raised e → Cause e

  abbrev pub Explained : Outcome ProbeResult → Type 0
  Explained (returned r) = Answers t r
  Explained (raised e) = Cause e

-- A stage and a status that the validator of `ProbeResult` takes for this kind of check.
abbrev pub Fits : CheckKind → ResultStatus → ProbeStage → Type 0
Fits k s g = (status_beq s (status_by_stage g) && not (foreign_stage k g)) ≡ true

both :
    (k : CheckKind) (s : ResultStatus) (g : ProbeStage) → Fits vpn s g → Fits sni s g → Fits k s g
both vpn s g h h' = h
both sni s g h h' = h'

module _ (n : Network) (t : TargetConfig) (port : port_in_range t.port ≡ true) where
  pub result-Explained :
      (s : ResultStatus) (g : ProbeStage) (l : Option ℕ) (ips : List Ip) (c : Option String)
      → Fits t.check_kind s g
      → length ips ≤ 16
      → code_fits c ≡ true
      → Explained n t (result t s g l ips c)
  unfolding result accepts
  result-Explained s g l ips c fits few short = ground arith

  pub few : (ips : List Ip) → length (take 16 ips) ≤ 16
  few ips = omega (arith, length-take 16 ips)

  -- What a round may do: stop with an explained outcome, or go on.
  abbrev ExplainedRound : {S : Type 0} → Round S → Type 0
  ExplainedRound (stop o) = Explained n t o
  ExplainedRound (next s) = Unit

  continue_with-Explained :
      {S : Type 0} (r : Round S) (loop : S → Outcome ProbeResult)
      → ExplainedRound r
      → ((s : S) → Explained n t (loop s))
      → Explained n t (continue_with r loop)
  continue_with-Explained (stop o) loop h rest = h
  continue_with-Explained (next s) loop h rest = rest s

  -- a stage that both kinds of check may report
  pub plain :
      (s : ResultStatus) (g : ProbeStage) (ips : List Ip) (c : Option String)
      → Fits vpn s g
      → Fits sni s g
      → length ips ≤ 16
      → code_fits c ≡ true
      → Explained n t (result t s g none ips c)
  plain s g ips c h h' k m = result-Explained s g none ips c (both t.check_kind s g h h') k m

  module _ (ips : List Ip) where
    module _ (kind : t.check_kind ≡ vpn) where
      vpn_result :
          (s : ResultStatus) (g : ProbeStage) (l : Option ℕ) (c : Option String)
          → Fits vpn s g
          → code_fits c ≡ true
          → Explained n t (result t s g l (take 16 ips) c)
      vpn_result s g l c h k = result-Explained s g l (take 16 ips) c (rw kind h) (few ips) k

      after_tunnel-Explained :
          (d : DiagnosticResult) (u : Outcome TunnelResult)
          → ExplainedRound (after_tunnel n t ips d u)
      unfolding after_tunnel
      after_tunnel-Explained d (raised (xray_unavailable code)) =
          vpn_result unknown xray d.latency_ms _ refl (xray_code_fits (some code))
      after_tunnel-Explained d (returned u) = elim (Bool-cases u.canary_ok) [
        | inl e ↦ rw e (vpn_result up e2e u.latency_ms none refl refl)
        | inr e ↦ rw e tt
      ]
      after_tunnel-Explained d _ = vpn_result unknown xray d.latency_ms _ refl refl

      after_tcp-Explained :
          (a : Ip) (s : VpnState) (d : DiagnosticResult) → ExplainedRound (after_tcp n t ips a s d)
      unfolding after_tcp
      after_tcp-Explained a s d = elim (Bool-cases d.ok) [
        | inr e ↦ rw e tt
        | inl e ↦ rw e (elim (Outcome-cases (bound_target n.ip_text t a)) [
          | inl (b, eq) ↦ rw eq (after_tunnel-Explained d (n.tunnel_check b))
          | inr (x, eq) ↦ rw eq (from_binding a eq)
        ])
      ]

      vpn_round-Explained : (a : Ip) (s : VpnState) → ExplainedRound (vpn_round n t ips a s)
      unfolding vpn_round
      vpn_round-Explained a s = elim (Outcome-cases (n.tcp_check t a)) [
        | inl (d, eq) ↦ rw (eq, ExplainedRound) (after_tcp-Explained a s d)
        | inr (x, eq) ↦ rw (eq, ExplainedRound) (from_tcp a eq)
      ]

      vpn_verdict-Explained : (s : VpnState) → Explained n t (vpn_verdict n t ips s)
      unfolding vpn_verdict
      vpn_verdict-Explained s = elim (Bool-cases s.tcp_succeeded) [
        | inl e ↦
            rw e (vpn_result down vless_e2e _ _ refl (tunnel_code_fits s.last_tunnel.error_code))
        | inr e ↦ rw e (vpn_result down tcp _ _ refl (tcp_code_fits s.last_tcp.error_code))
      ]

      vpn_loop-Explained : (rest : List Ip) (s : VpnState) → Explained n t (vpn_loop n t ips rest s)
      unfolding vpn_loop
      vpn_loop-Explained [] s = vpn_verdict-Explained s
      vpn_loop-Explained (a ∷ rest) s =
          continue_with-Explained _ _ (vpn_round-Explained a s) (vpn_loop-Explained rest)

    module _ (kind : t.check_kind ≡ sni) where
      sni_result :
          (s : ResultStatus) (g : ProbeStage) (l : Option ℕ) (c : Option String)
          → Fits sni s g
          → code_fits c ≡ true
          → Explained n t (result t s g l (take 16 ips) c)
      sni_result s g l c h k = result-Explained s g l (take 16 ips) c (rw kind h) (few ips) k

      after_tls-Explained :
          (d : DiagnosticResult) (u : Outcome DiagnosticResult)
          → ExplainedRound (after_tls n t ips d u)
      unfolding after_tls
      after_tls-Explained d (raised e) = sni_result unknown policy none _ refl refl
      after_tls-Explained d (returned u) = elim (Bool-cases u.ok) [
        | inl e ↦ rw e (sni_result up tls u.latency_ms none refl refl)
        | inr e ↦ rw e tt
      ]

      sni_round-Explained : (a : Ip) (s : SniState) → ExplainedRound (sni_round n t ips a s)
      unfolding sni_round
      sni_round-Explained a s = elim (Outcome-cases (n.tcp_check t a)) [
        | inr (x, eq) ↦ rw (eq, ExplainedRound) (from_tcp a eq)
        | inl (d, eq) ↦
            rw (eq, ExplainedRound)
              (elim (Bool-cases d.ok) [
                | inl e ↦ simp e (after_tls-Explained d (n.tls_check t a))
                | inr e ↦ simp e tt
              ])
      ]

      sni_verdict-Explained : (s : SniState) → Explained n t (sni_verdict n t ips s)
      unfolding sni_verdict
      sni_verdict-Explained s =
          let code = map_error_code s.last_tls.error_code tls_codes "tls-handshake" in
          elim (Bool-cases s.tcp_succeeded) [
            | inr e ↦ rw e (sni_result down tcp _ _ refl (tcp_code_fits s.last_tcp.error_code))
            | inl e ↦ rw e (elim (Bool-cases (code == "tls-certificate")) [
              | inl c ↦
                  rw c
                    (sni_result down tls_certificate _ _ refl (tls_code_fits s.last_tls.error_code))
              | inr c ↦
                  rw c
                    (sni_result down tls_handshake _ _ refl (tls_code_fits s.last_tls.error_code))
            ])
          ]

      sni_loop-Explained : (rest : List Ip) (s : SniState) → Explained n t (sni_loop n t ips rest s)
      unfolding sni_loop
      sni_loop-Explained [] s = sni_verdict-Explained s
      sni_loop-Explained (a ∷ rest) s =
          continue_with-Explained _ _ (sni_round-Explained a s) (sni_loop-Explained rest)

  pub dial-Explained :
      (k : CheckKind) (ips : List Ip) → t.check_kind ≡ k → Explained n t (dial n t k ips)
  unfolding dial
  dial-Explained vpn ips e = vpn_loop-Explained ips e ips _
  dial-Explained sni ips e = sni_loop-Explained ips e ips _
