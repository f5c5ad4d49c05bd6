-- ===== src/Probe/Codes.antt =====
-- The closed sets of error codes of probe.py.
use lite_checker.Prelude.{
  String, Option, none, some, List, [], ◌∷◌, ◌≡◌, ◌≤◌, true, arith, count, contains, string_eq,
  eq_iff, if◌then◌else◌, All, Bool-cases, inl, inr,
}
use lite_checker.Models.{code_fits}

abbrev pub control_codes : List String
control_codes = "control-failed" ∷ []

abbrev pub tcp_codes : List String
tcp_codes = "tcp-connect" ∷ "tcp-failed" ∷ "tcp-refused" ∷ "tcp-timeout" ∷ []

abbrev pub tunnel_codes : List String
tunnel_codes = "canary-failed" ∷ "canary-timeout" ∷ "proxy-connect" ∷ []

abbrev pub tls_codes : List String
tls_codes = "tls-certificate" ∷ "tls-timeout" ∷ "tls-handshake" ∷ []

abbrev pub xray_codes : List String
xray_codes =
    "xray-config" ∷ "xray-error" ∷ "xray-exit" ∷ "xray-missing" ∷ "xray-ownership" ∷ "xray-start"
    ∷ "xray-startup-timeout" ∷ "xray-stdin" ∷ []

-- `_map_error_code`
unfoldable pub map_error_code : Option String → List String → String → String
map_error_code none allowed fallback = fallback
map_error_code (some c) allowed fallback = if contains allowed c then c else fallback

abbrev pub IsShort : String → Type 0
IsShort c = count c ≤ 64

contains-IsShort :
    (xs : List String) (c : String) → All IsShort xs → contains xs c ≡ true → IsShort c
contains-IsShort [] c h e = ground arith
contains-IsShort (x ∷ xs) c h e = ground (arith, eq_iff x c, contains-IsShort xs c h.1)

-- A mapped code is short, whatever the dependency reported.
pub map_error_code-IsShort :
    (o : Option String) (allowed : List String) (fallback : String)
    → All IsShort allowed
    → IsShort fallback
    → IsShort (map_error_code o allowed fallback)
unfolding map_error_code
map_error_code-IsShort none allowed fallback h k = k
map_error_code-IsShort (some c) allowed fallback h k = elim (Bool-cases (contains allowed c)) [
  | inl e ↦ rw e (contains-IsShort allowed c h e)
  | inr e ↦ rw e k
]

-- The codes that the probe reports pass the length bound of `ProbeResult`.
abbrev Reports : Option String → List String → String → Type 0
Reports o allowed fallback = code_fits (some (map_error_code o allowed fallback)) ≡ true

reports :
    (o : Option String) (allowed : List String) (fallback : String)
    → All IsShort allowed
    → IsShort fallback
    → Reports o allowed fallback
reports o allowed fallback h k = ground (arith, map_error_code-IsShort o allowed fallback h k)

pub control_code_fits : (o : Option String) → Reports o control_codes "control-failed"
control_code_fits o = reports o control_codes "control-failed" (omega arith) (omega arith)

pub tcp_code_fits : (o : Option String) → Reports o tcp_codes "tcp-failed"
tcp_code_fits o = reports o tcp_codes "tcp-failed" (omega arith) (omega arith)

pub tunnel_code_fits : (o : Option String) → Reports o tunnel_codes "canary-failed"
tunnel_code_fits o = reports o tunnel_codes "canary-failed" (omega arith) (omega arith)

pub tls_code_fits : (o : Option String) → Reports o tls_codes "tls-handshake"
tls_code_fits o = reports o tls_codes "tls-handshake" (omega arith) (omega arith)

pub xray_code_fits : (o : Option String) → Reports o xray_codes "xray-error"
xray_code_fits o = reports o xray_codes "xray-error" (omega arith) (omega arith)
