-- ===== src/OrigDst/Tests.antt =====
-- The kernel's answer for 93.184.216.34, port 443, and the theorem at it.
use condukt.Prelude.{ℕ, ◌^◌, ◌<◌, ◌≡◌, true, codes, ok, arith}
use condukt.Prelude.Decimal.{decimal}
use condukt.OrigDst.{Sockopt, socket_addr, original_dst}
use condukt.OrigDst.Octets.{IsBytes, original_dst-octets}

abbrev getsockopt : ℕ → ℕ → Sockopt
getsockopt level optname = record {
  rc = 0;
  addr = record { port_0 = 1; port_1 = 187; addr_0 = 93; addr_1 = 184; addr_2 = 216; addr_3 = 34 };
  last_os_error = codes "";
}

answer-IsBytes : IsBytes (getsockopt 0 80).addr
answer-IsBytes = record {
  port_0 = omega arith;
  port_1 = omega arith;
  addr_0 = omega arith;
  addr_1 = omega arith;
  addr_2 = omega arith;
  addr_3 = omega arith;
}

original_dst-octets_example :
    (original_dst true getsockopt ≡ ok (socket_addr (codes "93.184.216.34") 443)) × (443 < 2 ^ 16)
unfolding decimal
original_dst-octets_example = original_dst-octets true getsockopt answer-IsBytes
