-- ===== src/Sni/Tests.antt =====
-- A ClientHello with two names, the first of them not UTF-8.
use condukt.Prelude.{◌≡◌, refl, [], ◌∷◌, some, codes}
use condukt.Prelude.Bytes.{from_utf8}
use condukt.Sni.{Message, Extension, server_name, client_hello, TlsParser, extract}

abbrev parser : TlsParser
parser = record {
  parse_tls_plaintext = λ bytes. some (Message.other ∷ client_hello (some []) ∷ []);
  parse_tls_extensions = λ bytes. some (
      Extension.other
      ∷ server_name ((0, 0xFF ∷ []) ∷ (0, codes "a.org") ∷ (0, codes "b.org") ∷ [])
      ∷ []);
}

second_entry : extract parser [] ≡ some (codes "a.org")
unfolding extract from_utf8
second_entry = refl
