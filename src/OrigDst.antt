-- ===== src/OrigDst.antt =====
-- native/condukt_egress/src/proxy/orig_dst.rs: the destination of a connection before it was
-- redirected, on Linux. The system call is a parameter, and the byte order is the machine's.
pub mod Octets
mod Tests
use condukt.Prelude.{
  ℕ, ◌+◌, ◌*◌, ◌^◌, Bool, true, false, List, [], ◌∷◌, ◌++◌, Str, codes, ◌==◌, if◌then◌else◌, Result,
  ok, err,
}
use Prim.Native.Nat.{◌/◌, ◌%◌}
use condukt.Prelude.Decimal.{decimal}
use condukt.Event.{SocketAddr}

-- the memory of a `sockaddr_in` that the code reads, byte by byte
pub record SockaddrIn : Type 0 where
  pub port_0 : ℕ
  pub port_1 : ℕ
  pub addr_0 : ℕ
  pub addr_1 : ℕ
  pub addr_2 : ℕ
  pub addr_3 : ℕ

-- what one call of `getsockopt` returns and writes
pub record Sockopt : Type 0 where
  pub rc : ℕ
  pub addr : SockaddrIn
  pub last_os_error : Str

abbrev pub sol_ip : ℕ
sol_ip = 0

abbrev pub so_original_dst : ℕ
so_original_dst = 80

-- The machine's reading of a field: the first byte is the lowest on a little-endian machine.
abbrev pub native_u16 : Bool → ℕ → ℕ → ℕ
native_u16 true b_0 b_1 = b_0 + 2 ^ 8 * b_1
native_u16 false b_0 b_1 = 2 ^ 8 * b_0 + b_1

abbrev pub native_u32 : Bool → ℕ → ℕ → ℕ → ℕ → ℕ
native_u32 true b_0 b_1 b_2 b_3 = b_0 + 2 ^ 8 * b_1 + 2 ^ 16 * b_2 + 2 ^ 24 * b_3
native_u32 false b_0 b_1 b_2 b_3 = 2 ^ 24 * b_0 + 2 ^ 16 * b_1 + 2 ^ 8 * b_2 + b_3

-- `u16::from_be` and `u32::from_be`, which swap the bytes on a little-endian machine
abbrev pub from_be_16 : Bool → ℕ → ℕ
from_be_16 true x = x % 2 ^ 8 * 2 ^ 8 + x / 2 ^ 8 % 2 ^ 8
from_be_16 false x = x

abbrev pub from_be_32 : Bool → ℕ → ℕ
from_be_32 true x =
    x % 2 ^ 8 * 2 ^ 24
    + x / 2 ^ 8 % 2 ^ 8 * 2 ^ 16
    + x / 2 ^ 16 % 2 ^ 8 * 2 ^ 8
    + x / 2 ^ 24 % 2 ^ 8
from_be_32 false x = x

-- `Ipv4Addr::from(u32)` as text
abbrev pub ipv4 : ℕ → ℕ → ℕ → ℕ → Str
ipv4 a b c d =
    decimal a
    ++ (codes "." ++ (decimal b ++ (codes "." ++ (decimal c ++ (codes "." ++ decimal d)))))

abbrev pub ipv4_of : ℕ → Str
ipv4_of ip = ipv4 (ip / 2 ^ 24 % 2 ^ 8) (ip / 2 ^ 16 % 2 ^ 8) (ip / 2 ^ 8 % 2 ^ 8) (ip % 2 ^ 8)

-- `SocketAddr::V4`, with the texts of its parts
abbrev pub socket_addr : Str → ℕ → SocketAddr
socket_addr ip port = record { ip = ip; port = port; shown = ip ++ (codes ":" ++ decimal port) }

unfoldable pub original_dst : Bool → (ℕ → ℕ → Sockopt) → Result Str SocketAddr
unfolding decimal
original_dst little getsockopt =
    let answer = getsockopt sol_ip so_original_dst in
    let addr = answer.addr in
    if answer.rc == 0
    then ok (
        socket_addr
          (ipv4_of
            (from_be_32 little (native_u32 little addr.addr_0 addr.addr_1 addr.addr_2 addr.addr_3)))
          (from_be_16 little (native_u16 little addr.port_0 addr.port_1)))
    else err answer.last_os_error
