-- ===== src/Broker/Tenant.antt =====
-- crates/broker/src/tenant.rs: the name of a caller, and the addresses of the tailnet.
pub mod Label
use vaultr.Prelude.{
  ℕ, ◌+◌, ◌<◌, ◌≡◌, ◌↔◌, refl, Bool, true, false, not, ◌&&◌, Option, none, some, List, [], ◌∷◌, map,
  arith, ◌==◌, ltb, leb, if◌then◌else◌, filter, is_empty, Eq,
}
use vaultr.Text.{Text, text_eq, text_eq_iff, split, trim_matches, to_ascii_lowercase}
use vaultr.Broker.Seal.{is_label_char}

pub record Tenant : Type 0 where
  pub name : Text

-- The derived `PartialEq`.
abbrev pub tenant_eq : Tenant → Tenant → Bool
tenant_eq a b = text_eq a.name b.name

pub tenant_eq_iff : (a b : Tenant) → (tenant_eq a b ≡ true) ↔ (a ≡ b)
tenant_eq_iff a b = ground (arith, text_eq_iff a.name b.name)

instance abbrev pub tenant_key : Eq Tenant
tenant_key = record { beq = tenant_eq; beq_iff = tenant_eq_iff }

unfoldable pub from_label_source : Text → Option Tenant
from_label_source raw =
    let short = filter is_label_char (map to_ascii_lowercase raw) in
    if is_empty short then none else some (record { name = short })

-- .split('.').next().unwrap_or_default()
abbrev pub first_piece : List Text → Text
first_piece [] = []
first_piece (w ∷ ws) = w

unfoldable pub from_node_name : Text → Option Tenant
from_node_name name =
    from_label_source (first_piece (split b'.' (trim_matches (λ c. c == b'.') name)))

unfoldable pub from_pod_name : Text → Option Tenant
from_pod_name name = from_label_source name

-- std::net::IpAddr: four octets, or eight 16-bit segments.
pub data IpAddr : Type 0 where
  v4 : ℕ → ℕ → ℕ → ℕ → IpAddr
  v6 : ℕ → ℕ → ℕ → ℕ → ℕ → ℕ → ℕ → ℕ → IpAddr

abbrev pub ip_eq : IpAddr → IpAddr → Bool
ip_eq (v4 a b c d) (v4 a' b' c' d') = a == a' && b == b' && c == c' && d == d'
ip_eq (v6 a b c d e f g h) (v6 a' b' c' d' e' f' g' h') =
    a == a' && b == b' && c == c' && d == d' && e == e' && f == f' && g == g' && h == h'
ip_eq _ _ = false

pub ip_eq_iff : (a b : IpAddr) → (ip_eq a b ≡ true) ↔ (a ≡ b)
ip_eq_iff (v4 a b c d) (v4 a' b' c' d') = ground arith
ip_eq_iff (v6 a b c d e f g h) (v6 a' b' c' d' e' f' g' h') = ground arith
ip_eq_iff _ _ = ground arith

instance abbrev pub ip_key : Eq IpAddr
ip_key = record { beq = ip_eq; beq_iff = ip_eq_iff }

-- std::net::SocketAddr
pub record SocketAddr : Type 0 where
  pub ip : IpAddr
  pub port : ℕ

-- IpAddr::is_loopback: 127.0.0.0/8 and ::1.
unfoldable pub is_loopback : IpAddr → Bool
is_loopback (v4 a b c d) = a == 127
is_loopback (v6 a b c d e f g h) =
    a == 0 && b == 0 && c == 0 && d == 0 && e == 0 && f == 0 && g == 0 && h == 1

unfoldable pub is_tailnet_addr : IpAddr → Bool
is_tailnet_addr (v4 a b c d) = a == 100 && (leb 64 b && ltb b 128)
is_tailnet_addr (v6 a b c d e f g h) = a == 0xfd7a && b == 0x115c && c == 0xa1e0
