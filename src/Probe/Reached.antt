-- ===== src/Probe/Reached.antt =====
-- What it is for `probe_target` to reach an address, and what stands behind a verdict.
use lite_checker.Prelude.{
  ℕ, String, Bool, true, false, Option, some, List, [], ◌≡◌, Outcome, returned, raised, os_error,
  validation_error, All, string_eq, if◌then◌else◌,
}
use lite_checker.Models.{
  Ip, TargetConfig, ProbeResult, ResultStatus, ProbeStage, CheckKind, up, down, unknown, vpn, sni,
}
use lite_checker.Security.{is_forbidden_ip}
use lite_checker.Probe.{
  Network, DiagnosticResult, TunnelResult, result, bound_target, parse_all, sort_addresses,
}

module _ (n : Network) (t : TargetConfig) where
  -- An address answered end to end: through the tunnel bound to it, or, for an SNI check, with a
  -- TLS handshake. A TCP connection alone is no such answer.
  pub data Reaches (a : Ip) : CheckKind → Type 0 where
    by_tunnel :
        (d : DiagnosticResult) (b : TargetConfig) (u : TunnelResult)
        → n.tcp_check t a ≡ returned d
        → d.ok ≡ true
        → bound_target n.ip_text t a ≡ returned b
        → n.tunnel_check b ≡ returned u
        → u.canary_ok ≡ true
        → Reaches a vpn
    by_tls :
        (d u : DiagnosticResult)
        → n.tcp_check t a ≡ returned d
        → d.ok ≡ true
        → n.tls_check t a ≡ returned u
        → u.ok ≡ true
        → Reaches a sni

  -- Why a target counts as DOWN.
  pub data Unreachable : Type 0 where
    no_name : n.resolve t ≡ raised os_error → Unreachable
    no_answer : n.resolve t ≡ returned [] → Unreachable
    no_address :
        (answers : List (Option Ip)) (ips : List Ip)
        → n.resolve t ≡ returned answers
        → parse_all answers ≡ some ips
        → All (λ a. ¬ (Reaches a t.check_kind)) (sort_addresses ips)
        → Unreachable

  -- Why a target counts as UP.
  pub record Reachable : Type 0 where
    pub at : Ip
    pub allowed : is_forbidden_ip n.tables n.allow_private_targets at ≡ false
    pub reached : Reaches at t.check_kind

-- A verdict `s` with `U` behind UP and `D` behind DOWN.
abbrev pub Judged : Type 0 → Type 0 → ResultStatus → Type 0
Judged U D up = U
Judged U D down = D
Judged U D unknown = Unit

abbrev pub JudgedOutcome : Type 0 → Type 0 → Outcome ProbeResult → Type 0
JudgedOutcome U D (returned r) = Judged U D r.status
JudgedOutcome U D (raised e) = Unit

checked-Judged :
    (U D : Type 0) (b : Bool) (r : ProbeResult)
    → Judged U D r.status
    → JudgedOutcome U D (if b then returned r else raised validation_error)
checked-Judged U D true r h = h
checked-Judged U D false r h = tt

pub result-Judged :
    (U D : Type 0) (t : TargetConfig) (s : ResultStatus) (g : ProbeStage) (l : Option ℕ)
    (ips : List Ip) (c : Option String)
    → Judged U D s
    → JudgedOutcome U D (result t s g l ips c)
unfolding result
result-Judged U D t s g l ips c h = checked-Judged U D _ _ h

Judged-map :
    {U D U' D' : Type 0} (s : ResultStatus) → (U → U') → (D → D') → Judged U D s → Judged U' D' s
Judged-map up f g h = f h
Judged-map down f g h = g h
Judged-map unknown f g h = h

pub JudgedOutcome-map :
    {U D U' D' : Type 0} (o : Outcome ProbeResult)
    → (U → U')
    → (D → D')
    → JudgedOutcome U D o
    → JudgedOutcome U' D' o
JudgedOutcome-map (returned r) f g h = Judged-map r.status f g h
JudgedOutcome-map (raised e) f g h = h
