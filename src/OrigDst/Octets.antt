-- ===== src/OrigDst/Octets.antt =====
-- The bytes of the kernel's answer, whatever the machine's byte order.
use condukt.Prelude.{
  ℕ, ◌+◌, ◌*◌, ◌^◌, ◌<◌, ◌≡◌, refl, ap, ◌∙◌, Bool, true, false, Str, ◌==◌, if◌then◌else◌, ok, err,
  arith,
}
use condukt.OrigDst.{
  SockaddrIn, Sockopt, native_u16, native_u32, from_be_16, from_be_32, ipv4, ipv4_of, socket_addr,
  original_dst,
}

-- each field is a byte
pub record IsBytes (a : SockaddrIn) : Type 0 where
  pub port_0 : a.port_0 < 2 ^ 8
  pub port_1 : a.port_1 < 2 ^ 8
  pub addr_0 : a.addr_0 < 2 ^ 8
  pub addr_1 : a.addr_1 < 2 ^ 8
  pub addr_2 : a.addr_2 < 2 ^ 8
  pub addr_3 : a.addr_3 < 2 ^ 8

from_be_16-native_u16 :
    (little : Bool) (b_0 b_1 : ℕ)
    → b_0 < 2 ^ 8
    → b_1 < 2 ^ 8
    → from_be_16 little (native_u16 little b_0 b_1) ≡ 2 ^ 8 * b_0 + b_1
from_be_16-native_u16 true b_0 b_1 h_0 h_1 = omega arith
from_be_16-native_u16 false b_0 b_1 h_0 h_1 = refl

from_be_32-native_u32 :
    (little : Bool) (b_0 b_1 b_2 b_3 : ℕ)
    → b_0 < 2 ^ 8
    → b_1 < 2 ^ 8
    → b_2 < 2 ^ 8
    → b_3 < 2 ^ 8
    → from_be_32 little (native_u32 little b_0 b_1 b_2 b_3)
      ≡ 2 ^ 24 * b_0 + 2 ^ 16 * b_1 + 2 ^ 8 * b_2 + b_3
from_be_32-native_u32 true b_0 b_1 b_2 b_3 h_0 h_1 h_2 h_3 = omega arith
from_be_32-native_u32 false b_0 b_1 b_2 b_3 h_0 h_1 h_2 h_3 = refl

abbrev pub port_of : SockaddrIn → ℕ
port_of a = 2 ^ 8 * a.port_0 + a.port_1

abbrev pub ip_of : SockaddrIn → Str
ip_of a = ipv4 a.addr_0 a.addr_1 a.addr_2 a.addr_3

pair_path : {A B : Type 0} {a c : A} {b d : B} → a ≡ c → b ≡ d → ◌≡◌ {A = A × B} (a, b) (c, d)
pair_path p q = rw (p, q) refl

ipv4_cong : {a b c d e f g h : ℕ} → a ≡ e → b ≡ f → c ≡ g → d ≡ h → ipv4 a b c d ≡ ipv4 e f g h
ipv4_cong p q r s = rw (p, q, r, s) refl

ipv4_of_native :
    (little : Bool) (a : SockaddrIn)
    → IsBytes a
    → ipv4_of (from_be_32 little (native_u32 little a.addr_0 a.addr_1 a.addr_2 a.addr_3)) ≡ ip_of a
ipv4_of_native little a h =
    ap ipv4_of (
      from_be_32-native_u32 little a.addr_0 a.addr_1 a.addr_2 a.addr_3 h.addr_0 h.addr_1 h.addr_2
        h.addr_3)
    ∙ octets a.addr_0 a.addr_1 a.addr_2 a.addr_3 h.addr_0 h.addr_1 h.addr_2 h.addr_3
  where
    octets :
        (b_0 b_1 b_2 b_3 : ℕ)
        → b_0 < 2 ^ 8
        → b_1 < 2 ^ 8
        → b_2 < 2 ^ 8
        → b_3 < 2 ^ 8
        → ipv4_of (2 ^ 24 * b_0 + 2 ^ 16 * b_1 + 2 ^ 8 * b_2 + b_3) ≡ ipv4 b_0 b_1 b_2 b_3
    octets b_0 b_1 b_2 b_3 h_0 h_1 h_2 h_3 =
        ipv4_cong (omega arith) (omega arith) (omega arith) (omega arith)

-- On a machine of either byte order, and for any bytes that the kernel writes: the call with the
-- options 0 and 80 fails with the last error of the system unless it returns 0; then the address has
-- the four octets that the kernel wrote, in their order, and the port is its two bytes, the high one
-- first, and below 2 ^ 16.
pub original_dst-octets :
    (little : Bool) (getsockopt : ℕ → ℕ → Sockopt)
    → IsBytes (getsockopt 0 80).addr
    → (original_dst little getsockopt ≡ (
        if (getsockopt 0 80).rc == 0
        then ok (socket_addr (ip_of (getsockopt 0 80).addr) (port_of (getsockopt 0 80).addr))
        else err (getsockopt 0 80).last_os_error))
      × (port_of (getsockopt 0 80).addr < 2 ^ 16)
unfolding original_dst
original_dst-octets little getsockopt h =
    let a = (getsockopt 0 80).addr in
    (
      ap
          (λ (v : Str × ℕ).
            if (getsockopt 0 80).rc == 0
            then ok (socket_addr v.0 v.1)
            else err (getsockopt 0 80).last_os_error)
          (pair_path (ipv4_of_native little a h)
            (from_be_16-native_u16 little a.port_0 a.port_1 h.port_0 h.port_1)),
      omega (arith, h.port_0, h.port_1),
    )
