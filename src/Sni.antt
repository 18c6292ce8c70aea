-- ===== src/Sni.antt =====
-- native/condukt_egress/src/proxy/sni.rs: the host name of a TLS ClientHello. The crate
-- `tls_parser` is a parameter.
pub mod Names
mod Tests
use condukt.Prelude.{ℕ, Bool, false, List, [], ◌∷◌, ◌&&◌, Option, none, some, Str, ◌==◌}
use condukt.Prelude.Bytes.{Bytes, from_utf8}

-- What the code reads of the parser's results. `client_hello` holds the bytes of the extensions.
pub data Message : Type 0 where
  client_hello : Option Bytes → Message
  other : Message

pub data Extension : Type 0 where
  server_name : List (ℕ × Bytes) → Extension
  other : Extension

pub record TlsParser : Type 0 where
  pub parse_tls_plaintext : Bytes → Option (List Message)
  pub parse_tls_extensions : Bytes → Option (List Extension)

-- the innermost loop: the first entry that is UTF-8
unfoldable pub first_name : List (ℕ × Bytes) → Option Str
first_name [] = none
first_name ((kind, name) ∷ entries) = elim (from_utf8 name) [
  | some host ↦ some host
  | none ↦ first_name entries
]

unfoldable pub first_in_extensions : List Extension → Option Str
unfolding first_name
first_in_extensions [] = none
first_in_extensions (Extension.other ∷ rest) = first_in_extensions rest
first_in_extensions (server_name entries ∷ rest) = elim (first_name entries) [
  | some host ↦ some host
  | none ↦ first_in_extensions rest
]

-- The loop over messages. A `?` inside it ends the whole function.
unfoldable pub first_in_messages : TlsParser → List Message → Option Str
unfolding first_in_extensions
first_in_messages p [] = none
first_in_messages p (Message.other ∷ rest) = first_in_messages p rest
first_in_messages p (client_hello none ∷ rest) = none
first_in_messages p (client_hello (some extensions) ∷ rest) =
    elim (p.parse_tls_extensions extensions) [
      | none ↦ none
      | some parsed ↦ elim (first_in_extensions parsed) [
        | some host ↦ some host
        | none ↦ first_in_messages p rest
      ]
    ]

unfoldable pub extract : TlsParser → Bytes → Option Str
unfolding first_in_messages
extract p bytes = elim (p.parse_tls_plaintext bytes) [
  | none ↦ none
  | some messages ↦ first_in_messages p messages
]

-- `bytes.len() >= 3 && bytes[0] == 0x16 && bytes[1] == 0x03`
unfoldable pub looks_like_tls : Bytes → Bool
looks_like_tls (a ∷ b ∷ c ∷ rest) = a == 0x16 && b == 0x03
looks_like_tls bytes = false
