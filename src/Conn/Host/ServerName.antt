-- ===== src/Conn/Host/ServerName.antt =====
-- The host of a TLS connection.
use condukt.Prelude.{ℕ, ◌≡◌, refl, ap, ◌∙◌, ◌⊎◌, inl, inr, true, List, [], ◌∷◌, Str, arith, ==_iff}
use condukt.Prelude.Bytes.{Bytes}
use condukt.Event.{https_port}
use condukt.Sni.{TlsParser, extract, looks_like_tls}
use condukt.Sni.Names.{names, head_of, extract_first}
use condukt.Conn.Host.{unwrap_or, identify_host}

abbrev pub first_or : List Str → Str → Str
first_or [] d = d
first_or (n ∷ ns) d = n

unwrap_or_head : (ns : List Str) (d : Str) → unwrap_or (head_of ns) d ≡ first_or ns d
unwrap_or_head [] d = refl
unwrap_or_head (n ∷ ns) d = refl

is_tls :
    (tls : TlsParser) (bytes : Bytes) (port : ℕ) (dst_ip : Str)
    → (port ≡ https_port) ⊎ (looks_like_tls bytes ≡ true)
    → identify_host tls bytes port dst_ip ≡ unwrap_or (extract tls bytes) dst_ip
unfolding identify_host
is_tls tls bytes port dst_ip (inl e) = ground (arith, ==_iff port https_port, e)
is_tls tls bytes port dst_ip (inr e) = ground (arith, e)

-- On port 443, and on any port where the first bytes look like TLS, the identified host is the first
-- UTF-8 name of the ClientHello's server-name extensions, and the destination address where there is
-- none; what the bytes hold as plain text does not matter.
pub identify_host_tls :
    (tls : TlsParser) (bytes : Bytes) (port : ℕ) (dst_ip : Str)
    → (port ≡ https_port) ⊎ (looks_like_tls bytes ≡ true)
    → identify_host tls bytes port dst_ip ≡ first_or (names tls bytes) dst_ip
identify_host_tls tls bytes port dst_ip h =
    is_tls tls bytes port dst_ip h
    ∙ (ap (λ o. unwrap_or o dst_ip) (extract_first tls bytes)
        ∙ unwrap_or_head (names tls bytes) dst_ip)
