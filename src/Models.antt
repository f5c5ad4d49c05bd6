-- ===== src/Models.antt =====
-- models.py: the data contracts that the probe agents and the collector share.
use lite_checker.Prelude.{
  ℕ, String, Bool, true, false, Option, none, some, List, ◌&&◌, not, leb, count, length,
}
use lite_checker.Json.{Fields}

pub data ResultStatus : Type 0 where
  up down unknown : ResultStatus

pub data ProbeStage : Type 0 where
  e2e tls tls_handshake tls_certificate dns tcp vless_e2e agent_network xray deadline policy :
      ProbeStage

pub data CheckKind : Type 0 where
  vpn sni : CheckKind

pub data AddressKind : Type 0 where
  ip domain : AddressKind

abbrev pub status_beq : ResultStatus → ResultStatus → Bool
status_beq up up = true
status_beq down down = true
status_beq unknown unknown = true
status_beq _ _ = false

abbrev pub kind_beq : CheckKind → CheckKind → Bool
kind_beq vpn vpn = true
kind_beq sni sni = true
kind_beq _ _ = false

-- `_STATUS_BY_STAGE`
abbrev pub status_by_stage : ProbeStage → ResultStatus
status_by_stage e2e = up
status_by_stage tls = up
status_by_stage tls_handshake = down
status_by_stage tls_certificate = down
status_by_stage dns = down
status_by_stage tcp = down
status_by_stage vless_e2e = down
status_by_stage agent_network = unknown
status_by_stage xray = unknown
status_by_stage deadline = unknown
status_by_stage policy = unknown

-- An address of the `ipaddress` module that has no IPv6 scope id: its version and its integer value.
-- Among these the canonical text `str(address)` is one to one with it, so the models keep the address
-- in place of that text. Addresses with a scope id, as `fe80::1%eth0`, are outside of the models.
pub data Ip : Type 0 where
  v4 v6 : ℕ → Ip

pub record TargetConfig : Type 0 where
  pub target_id : String
  pub config_fingerprint : String
  pub label : String
  pub address : String
  pub port : ℕ
  pub address_kind : AddressKind
  pub outbound : Fields
  pub check_kind : CheckKind

pub record ProbeResult : Type 0 where
  pub target_id : String
  pub label : String
  pub address : String
  pub port : ℕ
  pub status : ResultStatus
  pub stage : ProbeStage
  pub latency_ms : Option ℕ
  pub resolved_ips : List Ip
  pub error_code : Option String
  pub check_kind : CheckKind

-- `Field(ge=1, le=65535)`
abbrev pub port_in_range : ℕ → Bool
port_in_range p = leb 1 p && leb p 65535

-- `Field(max_length=64)` of an optional text
abbrev pub code_fits : Option String → Bool
code_fits none = true
code_fits (some c) = leb (count c) 64

-- The stages that `_status_matches_evidence_stage` refuses for a kind of check.
abbrev pub foreign_stage : CheckKind → ProbeStage → Bool
foreign_stage sni e2e = true
foreign_stage sni vless_e2e = true
foreign_stage vpn tls = true
foreign_stage vpn tls_handshake = true
foreign_stage vpn tls_certificate = true
foreign_stage _ _ = false

-- The whole validation of a `ProbeResult`: the fields' bounds and the model validator.
unfoldable pub accepts : ProbeResult → Bool
accepts r =
    port_in_range r.port
    && leb (length r.resolved_ips) 16
    && code_fits r.error_code
    && status_beq r.status (status_by_stage r.stage)
    && not (foreign_stage r.check_kind r.stage)
