-- ===== src/Domain/Ports.antt =====
-- Published ports: `validate_ports` (src/domain/validation.rs, src/domain/mounts.rs).
use solodock.Base.{
  ℕ, suc, Bool, true, false, ◌&&◌, ◌||◌, not, ◌==◌, leb, List, [], ◌∷◌, length, any, Result, ok,
  ensure, ◌>>◌,
}
use solodock.Base.Text.{Text, lit, same}
use solodock.Domain.Errors.{DomainError, DraftValidationError, at, issue_path}

pub data PortProtocol : Type 0 where
  tcp udp : PortProtocol

abbrev pub protocol_eq : PortProtocol → PortProtocol → Bool
protocol_eq PortProtocol.tcp PortProtocol.tcp = true
protocol_eq PortProtocol.udp PortProtocol.udp = true
protocol_eq _ _ = false

pub record PortInput : Type 0 where
  pub host_ip : Text
  pub host_port : ℕ
  pub container_port : ℕ
  pub protocol : PortProtocol

abbrev pub is_loopback : Text → Bool
is_loopback host_ip = same host_ip (lit "127.0.0.1") || same host_ip (lit "::1")

-- The same element of the set `published`. (The set `normalized` holds more of each port, so that an
-- insert into it never fails where the insert into `published` succeeds.)
unfoldable pub same_published : PortInput → PortInput → Bool
same_published port other =
    same other.host_ip port.host_ip
    && (other.host_port == port.host_port && protocol_eq other.protocol port.protocol)

unfoldable pub check_port : ℕ → List PortInput → PortInput → Result DraftValidationError (Unit {0})
unfolding same_published issue_path
check_port index seen port = do
  ensure (is_loopback port.host_ip)
      (at DomainError.config_invalid (issue_path "ports" index ".host_ip") "LOOPBACK_REQUIRED")
  ensure (not (port.host_port == 0))
      (at DomainError.config_invalid (issue_path "ports" index ".host_port") "OUT_OF_RANGE")
  ensure (not (port.container_port == 0))
      (at DomainError.config_invalid (issue_path "ports" index ".container_port") "OUT_OF_RANGE")
  ensure (not (any (same_published port) seen))
      (at DomainError.port_conflict (issue_path "ports" index ".host_port") "PORT_CONFLICT")

-- The loop, with the ports that it has seen.
unfoldable pub check_ports :
    ℕ → List PortInput → List PortInput → Result DraftValidationError (Unit {0})
unfolding check_port
check_ports index seen [] = ok tt
check_ports index seen (port ∷ ports) =
    let rest = check_ports (suc index) (port ∷ seen) ports in check_port index seen port >> rest

unfoldable pub validate_ports : List PortInput → Result DraftValidationError (Unit {0})
unfolding check_ports
validate_ports ports = do
  ensure (leb (length ports) 32)
      (at DomainError.config_quota_exceeded (lit "ports") "CONFIG_QUOTA_EXCEEDED")
  check_ports 0 [] ports
