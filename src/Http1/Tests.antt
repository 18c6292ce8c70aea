-- ===== src/Http1/Tests.antt =====
-- A head with a repeated header.
use condukt.Prelude.{◌≡◌, refl, [], ◌∷◌, some, none, Str, codes}
use condukt.Prelude.Bytes.{Bytes}
use condukt.Http1.{Parsed, Status, complete, partial}
use condukt.Http1.Headers.{last_value}

abbrev parsed : Parsed
parsed = record {
  method = some (codes "GET");
  path = none;
  headers =
      record { name = codes "Host"; value = codes "a.org" }
      ∷ record { name = codes "host"; value = codes "b.org" }
      ∷ [];
}

-- a parser that has the whole head as soon as there is a byte
abbrev parser : Bytes → Status
parser [] = partial
parser (b ∷ bs) = complete parsed

last_wins : last_value (codes "host") parsed.headers ≡ some (codes "b.org")
last_wins = unfold condukt.Prelude.Bytes.from_utf8 in refl
