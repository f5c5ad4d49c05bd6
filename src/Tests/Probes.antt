-- ===== src/Tests/Probes.antt =====
-- A target with two addresses, one of which the policy forbids, and a pass over a failed target.
use lite_checker.Prelude.{
  ◌≡◌, inl, inr, refl, Bool, true, false, Option, none, some, List, [], ◌∷◌, arith, All, keep,
  returned, raised, os_error, not, nat_beq, string_eq,
}
use lite_checker.Json.{Fields, obj, arr, text, nil, cons, end, field, get, put}
use lite_checker.Models.{Ip, v4, v6, TargetConfig, ProbeResult, vpn, domain, down, vless_e2e}
use lite_checker.Security.{IpTables, is_forbidden_ip}
use lite_checker.Probe.{
  Network, ControlResult, DiagnosticResult, TunnelResult, probe_target, bound_target, TargetAt,
  bound_target-TargetAt, parse_all,
}
use lite_checker.Probe.Total.{probe_target-Explained}
use lite_checker.Probe.Explained.{Explained}
use lite_checker.Probe.Evidence.{probe_target-Judged}
use lite_checker.Probe.Reached.{JudgedOutcome, Reachable, Unreachable}
use lite_checker.Probe.Policy.{Redialled, probe_target-Redialled}
use lite_checker.Probe.Batch.{Answered, probe_all, probe_all-Answered}
use lite_checker.Recheck.{Pass, Confirmation, confirm_failures, is_down, ids}
use lite_checker.Recheck.Controlled.{IsConfirmed}
use lite_checker.Recheck.Replaced.{Kept}
use lite_checker.Recheck.Confirmed.{confirm_failures-IsConfirmed}

abbrev loopback : Ip → Bool
loopback (v4 n) = nat_beq n 2130706433
loopback (v6 n) = false

abbrev tables : IpTables
tables = record {
  is_global = λ a. not (loopback a);
  is_multicast = λ a. false;
  is_unspecified = λ a. false;
  is_loopback = loopback;
  is_link_local = λ a. false;
  is_private = λ a. false;
  is_reserved = λ a. false;
}

abbrev connects : DiagnosticResult
connects = record { ok = true; latency_ms = some 12; error_code = none }

abbrev canary : TunnelResult
canary = record { canary_ok = true; latency_ms = some 40; error_code = none }

abbrev answers : List (Option Ip)
answers = some (v4 134744072) ∷ some (v4 2130706433) ∷ some (v4 134744072) ∷ []

abbrev network : Network
network = record {
  resolve = λ t. returned answers;
  tcp_check = λ t a. returned connects;
  tls_check = λ t a. returned connects;
  tunnel_check = λ t. returned canary;
  ip_text = λ a. "8.8.8.8";
  tables = tables;
  allow_private_targets = false;
}

abbrev open_network : Network
open_network = record network { allow_private_targets = true }

abbrev outbound : Fields
outbound =
    field "settings"
      (obj (field "vnext" (arr (cons (obj (field "address" (text "vpn.example") end)) nil)) end))
      end

abbrev target : TargetConfig
target = record {
  target_id = "t1";
  config_fingerprint = "f1";
  label = "first";
  address = "vpn.example";
  port = 443;
  address_kind = domain;
  outbound = outbound;
  check_kind = vpn;
}

abbrev fine : ControlResult
fine = record { ok = true; latency_ms = some 5; error_code = none }

probe_target-Judged_example :
    JudgedOutcome
      (Reachable open_network target)
      (Unreachable open_network target)
      (probe_target open_network target fine)
probe_target-Judged_example = probe_target-Judged open_network target fine

probe_target-Explained_example :
    Explained open_network target (probe_target open_network target fine)
probe_target-Explained_example = probe_target-Explained open_network target refl fine

answers_parse : parse_all answers ≡ some (v4 134744072 ∷ v4 2130706433 ∷ v4 134744072 ∷ [])
unfolding parse_all
answers_parse = refl

loopback_forbidden : is_forbidden_ip tables false (v4 2130706433) ≡ true
unfolding is_forbidden_ip
loopback_forbidden = refl

probe_target-Redialled_example :
    probe_target
      (Redialled network target
        (λ t a. raised os_error)
        (λ t a. returned connects)
        (λ t. returned canary))
      target
      fine
    ≡ probe_target network target fine
probe_target-Redialled_example =
    probe_target-Redialled network target (λ t a. raised os_error) (λ t a. returned connects)
      (λ t. returned canary) fine
      (
        v4 134744072 ∷ v4 2130706433 ∷ v4 134744072 ∷ [],
        answers_parse,
        inr (inl loopback_forbidden),
      )

abbrev other : TargetConfig
other = record target { target_id = "t2"; port = 80 }

probe_all-Answered_example :
    (rs : List ProbeResult) × (probe_all open_network fine 4 ((target, true) ∷ (other, false) ∷ [])
      ≡ returned rs)
    × Answered open_network fine ((target, true) ∷ (other, false) ∷ []) rs
probe_all-Answered_example =
    probe_all-Answered open_network fine 4 ((target, true) ∷ (other, false) ∷ []) (omega arith)
      (refl, (refl, tt))

abbrev bound : TargetConfig
bound = record target {
  outbound =
      field "settings"
        (obj (field "vnext" (arr (cons (obj (field "address" (text "8.8.8.8") end)) nil)) end)) end;
}

target-bound : bound_target (λ a. "8.8.8.8") target (v4 134744072) ≡ returned bound
unfolding bound_target get put
target-bound = refl

bound_target-TargetAt_example : TargetAt target bound "8.8.8.8"
bound_target-TargetAt_example =
    bound_target-TargetAt (λ a. "8.8.8.8") target bound (v4 134744072) target-bound

abbrev failed_result : ProbeResult
failed_result = record {
  target_id = "t1";
  label = "first";
  address = "vpn.example";
  port = 443;
  status = down;
  stage = vless_e2e;
  latency_ms = none;
  resolved_ips = [];
  error_code = some "canary-failed";
  check_kind = vpn;
}

-- the budget is two minutes, and the second probe fails again
abbrev pass : Pass
pass = record {
  remaining = λ i. 120000000;
  slept = true;
  check_before = λ b. fine;
  probe = λ ts c b. failed_result ∷ [];
  check_after = λ b. fine;
}

confirm_failures-IsConfirmed_example :
    (c : Confirmation) × (confirm_failures pass (target ∷ []) (failed_result ∷ []) fine
      ≡ returned c)
    × Kept (ids (keep is_down (failed_result ∷ []))) (failed_result ∷ []) c.results
    × All
        (λ r.
          r.status ≡ down
          → IsConfirmed pass (target ∷ []) (keep is_down (failed_result ∷ [])) fine r)
        c.results
confirm_failures-IsConfirmed_example =
    confirm_failures-IsConfirmed pass (target ∷ []) (failed_result ∷ []) fine

-- one target goes, and the other gets a new configuration
abbrev configured_again : TargetConfig
configured_again = record target { config_fingerprint = "f2" }
