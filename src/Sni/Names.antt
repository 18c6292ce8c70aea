-- ===== src/Sni/Names.antt =====
-- Which name `extract` takes.
use condukt.Prelude.{
  ℕ, ◌≡◌, refl, inl, inr, List, [], ◌∷◌, ◌++◌, Option, none, some, Str, arith, Option-cases,
}
use condukt.Prelude.Bytes.{Bytes, from_utf8}
use condukt.Sni.{
  Message, Extension, server_name, client_hello, TlsParser, first_name, first_in_extensions,
  first_in_messages, extract,
}

-- The names of the server-name entries in order, those that are UTF-8.
abbrev pub text_names : List (ℕ × Bytes) → List Str
text_names [] = []
text_names ((kind, name) ∷ entries) = elim (from_utf8 name) [
  | some host ↦ host ∷ text_names entries
  | none ↦ text_names entries
]

abbrev pub names_of : List Extension → List Str
names_of [] = []
names_of (Extension.other ∷ rest) = names_of rest
names_of (server_name entries ∷ rest) = text_names entries ++ names_of rest

-- The names of the ClientHellos, up to one whose extensions are missing or malformed.
abbrev pub names_in : TlsParser → List Message → List Str
names_in p [] = []
names_in p (Message.other ∷ rest) = names_in p rest
names_in p (client_hello none ∷ rest) = []
names_in p (client_hello (some extensions) ∷ rest) = elim (p.parse_tls_extensions extensions) [
  | none ↦ []
  | some parsed ↦ names_of parsed ++ names_in p rest
]

abbrev pub names : TlsParser → Bytes → List Str
names p bytes = elim (p.parse_tls_plaintext bytes) [
  | none ↦ []
  | some messages ↦ names_in p messages
]

abbrev pub head_of : List Str → Option Str
head_of [] = none
head_of (n ∷ ns) = some n

abbrev or_next : Option Str → Option Str → Option Str
or_next (some n) o = some n
or_next none o = o

head_of-append : (a b : List Str) → head_of (a ++ b) ≡ or_next (head_of a) (head_of b)
head_of-append [] b = refl
head_of-append (n ∷ a) b = refl

first_name_head : (entries : List (ℕ × Bytes)) → first_name entries ≡ head_of (text_names entries)
unfolding first_name
first_name_head [] = refl
first_name_head ((kind, name) ∷ entries) = ground (arith, first_name_head entries)

first_in_extensions_head : (es : List Extension) → first_in_extensions es ≡ head_of (names_of es)
unfolding first_in_extensions
first_in_extensions_head [] = refl
first_in_extensions_head (Extension.other ∷ rest) = first_in_extensions_head rest
first_in_extensions_head (server_name entries ∷ rest) = ground (
  arith,
  first_name_head entries,
  first_in_extensions_head rest,
  head_of-append (text_names entries) (names_of rest),
)

first_in_messages_head :
    (p : TlsParser) (ms : List Message) → first_in_messages p ms ≡ head_of (names_in p ms)
unfolding first_in_messages
first_in_messages_head p [] = refl
first_in_messages_head p (Message.other ∷ rest) = first_in_messages_head p rest
first_in_messages_head p (client_hello none ∷ rest) = refl
first_in_messages_head p (client_hello (some extensions) ∷ rest) =
    elim (Option-cases (p.parse_tls_extensions extensions)) [
      | inl e ↦ ground (arith, e)
      | inr (parsed, e) ↦ ground (
        arith,
        e,
        first_in_extensions_head parsed,
        first_in_messages_head p rest,
        head_of-append (names_of parsed) (names_in p rest),
      )
    ]

-- `extract` takes the first of the UTF-8 names in the server-name extensions of the ClientHellos of
-- the first record, in the parser's order, where the list ends at a ClientHello without well-formed
-- extensions; and there is no result where this list is empty.
pub extract_first : (p : TlsParser) (bytes : Bytes) → extract p bytes ≡ head_of (names p bytes)
unfolding extract
extract_first p bytes = elim (Option-cases (p.parse_tls_plaintext bytes)) [
  | inl e ↦ ground (arith, e)
  | inr (messages, e) ↦ ground (arith, e, first_in_messages_head p messages)
]
