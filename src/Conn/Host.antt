-- ===== src/Conn/Host.antt =====
-- `identify_host` and `parse_http_host`.
pub mod Header
pub mod ServerName
use condukt.Prelude.{
  ℕ, Bool, true, false, ◌||◌, List, [], ◌∷◌, Option, none, some, Str, codes, ◌==◌, if◌then◌else◌,
  strip_prefix,
}
use condukt.Prelude.Bytes.{Bytes, from_utf8, lines, trim}
use condukt.Event.{https_port}
use condukt.Sni.{TlsParser, extract, looks_like_tls}

-- `Option::or_else`
abbrev pub or_else : Option Str → Option Str → Option Str
or_else (some a) b = some a
or_else none b = b

-- the three spellings of the header's name
abbrev pub strip_host : Str → Option Str
strip_host line =
    or_else (or_else (strip_prefix (codes "Host:") line) (strip_prefix (codes "host:") line))
      (strip_prefix (codes "HOST:") line)

-- the loop over the lines
unfoldable pub host_in_lines : List Str → Option Str
host_in_lines [] = none
host_in_lines (line ∷ rest) = elim (strip_host line) [
  | some value ↦ some (trim value)
  | none ↦ host_in_lines rest
]

-- from the decoded text on
abbrev pub host_in_text : Option Str → Option Str
host_in_text none = none
host_in_text (some text) = host_in_lines (lines text)

unfoldable pub parse_http_host : Bytes → Option Str
unfolding host_in_lines from_utf8 lines trim
parse_http_host bytes = host_in_text (from_utf8 bytes)

abbrev pub unwrap_or : Option Str → Str → Str
unwrap_or (some a) d = a
unwrap_or none d = d

unfoldable pub identify_host : TlsParser → Bytes → ℕ → Str → Str
unfolding extract looks_like_tls parse_http_host
identify_host tls bytes port dst_ip =
    if port == https_port || looks_like_tls bytes
    then unwrap_or (extract tls bytes) dst_ip
    else unwrap_or (parse_http_host bytes) dst_ip
