-- ===== src/Probe.antt =====
-- probe.py: the classification of one target. The names below are those of the source; what the
-- network answers is the record `Network`, a parameter.
mod Codes
mod Addresses
mod Bound
pub mod Total
pub mod Explained
pub mod Evidence
pub mod Dialled
pub mod Reached
pub mod Policy
pub mod Batch
unfoldable pub use Addresses.{ip_lt, sort_addresses, parse_all}
unfoldable pub use Codes.{map_error_code}
pub use Codes.{control_codes, tcp_codes, tunnel_codes, tls_codes, xray_codes}
pub use Bound.{TargetAt, dialled, bound_target-TargetAt}
unfoldable pub use Bound.{bound_target}
use lite_checker.Prelude.{
  ℕ, String, Bool, true, false, Option, none, some, List, [], ◌∷◌, ltb, length, take, any_of,
  string_eq, ◌==◌, if◌then◌else◌, Outcome, returned, raised, os_error, type_error, value_error,
  validation_error, xray_unavailable,
}
use lite_checker.Models.{
  Ip, TargetConfig, ProbeResult, ResultStatus, ProbeStage, CheckKind, accepts, up, down, unknown,
  e2e, tls, tls_handshake, tls_certificate, dns, tcp, vless_e2e, agent_network, xray, policy, vpn,
  sni,
}
use lite_checker.Security.{IpTables, is_forbidden_ip}

pub record ControlResult : Type 0 where
  pub ok : Bool
  pub latency_ms : Option ℕ
  pub error_code : Option String

pub record DiagnosticResult : Type 0 where
  pub ok : Bool
  pub latency_ms : Option ℕ
  pub error_code : Option String

pub record TunnelResult : Type 0 where
  pub canary_ok : Bool
  pub latency_ms : Option ℕ
  pub error_code : Option String

-- The dependencies of a probe. An answer of the resolver that `ipaddress` does not parse is `none`.
-- Each address is dialled at most once, so the answers are functions of the address.
pub record Network : Type 0 where
  pub resolve : TargetConfig → Outcome (List (Option Ip))
  pub tcp_check : TargetConfig → Ip → Outcome DiagnosticResult
  pub tls_check : TargetConfig → Ip → Outcome DiagnosticResult
  pub tunnel_check : TargetConfig → Outcome TunnelResult
  pub ip_text : Ip → String
  pub tables : IpTables
  pub allow_private_targets : Bool

abbrev pub max_resolved_addresses : ℕ
max_resolved_addresses = 64

-- `_result`; `ProbeResult` validates its fields when it is made.
unfoldable pub result :
    TargetConfig
    → ResultStatus
    → ProbeStage
    → Option ℕ
    → List Ip
    → Option String
    → Outcome ProbeResult
result t status stage latency ips code =
    let r : ProbeResult = record {
      target_id = t.target_id;
      label = t.label;
      address = t.address;
      port = t.port;
      status = status;
      stage = stage;
      latency_ms = latency;
      resolved_ips = ips;
      error_code = code;
      check_kind = t.check_kind;
    } in
    if accepts r then returned r else raised validation_error

-- What one round of a loop over the addresses does: it returns, or it goes on with its variables.
pub data Round (S : Type 0) : Type 0 where
  stop : Outcome ProbeResult → Round S
  next : S → Round S

abbrev pub continue_with : {S : Type 0} → Round S → (S → Outcome ProbeResult) → Outcome ProbeResult
continue_with (stop o) loop = o
continue_with (next s) loop = loop s

pub record VpnState : Type 0 where
  pub tcp_succeeded : Bool
  pub last_tcp : DiagnosticResult
  pub last_tunnel : TunnelResult

pub record SniState : Type 0 where
  pub tcp_succeeded : Bool
  pub last_tcp : DiagnosticResult
  pub last_tls : DiagnosticResult

abbrev pub tcp_failed : DiagnosticResult
tcp_failed = record { ok = false; latency_ms = none; error_code = some "tcp-failed" }

module _ (n : Network) (t : TargetConfig) (ips : List Ip) where
  -- `last_tunnel = await tunnel.check(bound_target)` and its handlers
  unfoldable pub after_tunnel : DiagnosticResult → Outcome TunnelResult → Round VpnState
  after_tunnel d (raised (xray_unavailable code)) = stop (
      result t unknown xray d.latency_ms (take 16 ips)
        (some (map_error_code (some code) xray_codes "xray-error")))
  after_tunnel d (raised e) =
      stop (result t unknown xray d.latency_ms (take 16 ips) (some "xray-error"))
  after_tunnel d (returned u) =
      if u.canary_ok
      then stop (result t up e2e u.latency_ms (take 16 ips) none)
      else next (record { tcp_succeeded = true; last_tcp = d; last_tunnel = u })

  unfoldable pub after_tcp : Ip → VpnState → DiagnosticResult → Round VpnState
  after_tcp a s d =
      if d.ok
      then elim (bound_target n.ip_text t a) [
        | raised e ↦ stop (raised e)
        | returned b ↦ after_tunnel d (n.tunnel_check b)
      ]
      else next (record s { last_tcp = d })

  unfoldable pub vpn_round : Ip → VpnState → Round VpnState
  vpn_round a s = elim (n.tcp_check t a) [
    | raised e ↦ stop (raised e)
    | returned d ↦ after_tcp a s d
  ]

  -- what follows the loop
  unfoldable pub vpn_verdict : VpnState → Outcome ProbeResult
  vpn_verdict s =
      if s.tcp_succeeded
      then result t down vless_e2e s.last_tcp.latency_ms (take 16 ips)
          (some (map_error_code s.last_tunnel.error_code tunnel_codes "canary-failed"))
      else result t down tcp s.last_tcp.latency_ms (take 16 ips)
          (some (map_error_code s.last_tcp.error_code tcp_codes "tcp-failed"))

  unfoldable pub vpn_loop : List Ip → VpnState → Outcome ProbeResult
  vpn_loop [] s = vpn_verdict s
  vpn_loop (a ∷ rest) s = continue_with (vpn_round a s) (vpn_loop rest)

  unfoldable pub after_tls : DiagnosticResult → Outcome DiagnosticResult → Round SniState
  after_tls d (raised e) =
      stop (result t unknown policy none (take 16 ips) (some "tls-local-error"))
  after_tls d (returned u) =
      if u.ok
      then stop (result t up tls u.latency_ms (take 16 ips) none)
      else next (record { tcp_succeeded = true; last_tcp = d; last_tls = u })

  unfoldable pub sni_round : Ip → SniState → Round SniState
  sni_round a s = elim (n.tcp_check t a) [
    | raised e ↦ stop (raised e)
    | returned d ↦ if d.ok then after_tls d (n.tls_check t a) else next (record s { last_tcp = d })
  ]

  unfoldable pub sni_verdict : SniState → Outcome ProbeResult
  sni_verdict s =
      let code = map_error_code s.last_tls.error_code tls_codes "tls-handshake" in
      if s.tcp_succeeded
      then result t down (if code == "tls-certificate" then tls_certificate else tls_handshake) none
          (take 16 ips) (some code)
      else result t down tcp none (take 16 ips)
          (some (map_error_code s.last_tcp.error_code tcp_codes "tcp-failed"))

  -- `_probe_sni`
  unfoldable pub sni_loop : List Ip → SniState → Outcome ProbeResult
  sni_loop [] s = sni_verdict s
  sni_loop (a ∷ rest) s = continue_with (sni_round a s) (sni_loop rest)

module _ (n : Network) (t : TargetConfig) where
  -- the loop over the addresses that passed the policy
  unfoldable pub dial : CheckKind → List Ip → Outcome ProbeResult
  dial vpn ips = vpn_loop n t ips ips (record {
    tcp_succeeded = false;
    last_tcp = tcp_failed;
    last_tunnel = record {
      canary_ok = false;
      latency_ms = none;
      error_code = some "canary-failed";
    };
  })
  dial sni ips = sni_loop n t ips ips (record {
    tcp_succeeded = false;
    last_tcp = tcp_failed;
    last_tls = record { ok = false; latency_ms = none; error_code = some "tls-handshake" };
  })

  unfoldable pub screen : List Ip → Outcome ProbeResult
  screen ips =
      if any_of (is_forbidden_ip n.tables n.allow_private_targets) ips
      then result t unknown policy none (take 16 ips) (some "forbidden-address")
      else dial t.check_kind ips

  unfoldable pub classify_answers : List (Option Ip) → Outcome ProbeResult
  classify_answers [] = result t down dns none [] (some "dns-empty")
  classify_answers (a ∷ rest) =
      if ltb max_resolved_addresses (length (a ∷ rest))
      then result t unknown policy none [] (some "dns-answer-limit")
      else elim (parse_all (a ∷ rest)) [
        | none ↦ result t unknown policy none [] (some "dns-invalid")
        | some ips ↦ screen (sort_addresses ips)
      ]

  unfoldable pub after_resolve : Outcome (List (Option Ip)) → Outcome ProbeResult
  after_resolve (raised os_error) = result t down dns none [] (some "dns-failed")
  after_resolve (raised type_error) = result t unknown policy none [] (some "dns-invalid")
  after_resolve (raised value_error) = result t unknown policy none [] (some "dns-invalid")
  after_resolve (raised validation_error) = result t unknown policy none [] (some "dns-invalid")
  after_resolve (raised e) = raised e
  after_resolve (returned answers) = classify_answers answers

  unfoldable pub probe_target : ControlResult → Outcome ProbeResult
  probe_target control =
      if control.ok
      then after_resolve (n.resolve t)
      else result t unknown agent_network none []
          (some (map_error_code control.error_code control_codes "control-failed"))
