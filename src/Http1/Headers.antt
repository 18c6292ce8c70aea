-- ===== src/Http1/Headers.antt =====
-- The header map of a parsed head.
use condukt.Prelude.{
  ◌≡◌, refl, ◌∙◌, ◌&&◌, List, [], ◌∷◌, Option, none, some, Str, arith, is_empty, str_eq, codes,
  if◌then◌else◌, to_ascii_lowercase, not,
}
use condukt.Prelude.Map
use condukt.Prelude.Map.{Map, get-insert}
use condukt.Prelude.Bytes.{Bytes, from_utf8}
use condukt.Http1.{Header, Parsed, Status, complete, RequestHead, head, unwrap_or, collect, parse}

-- the value of the last header with this name, in any ASCII case
abbrev pub last_value : Str → List Header → Option Str
last_value k [] = none
last_value k (h ∷ rest) = elim (last_value k rest) [
  | some v ↦ some v
  | none ↦
      if not (is_empty h.name) && str_eq (to_ascii_lowercase h.name) k
      then some (unwrap_or (from_utf8 h.value) [])
      else none
]

abbrev over : Option Str → Option Str → Option Str
over (some v) w = some v
over none w = w

get-collect :
    (k : Str) (hs : List Header) (m : Map Str)
    → Map.get k (collect hs m) ≡ over (last_value k hs) (Map.get k m)
unfolding collect
get-collect k [] m = refl
get-collect k (h ∷ rest) m =
    let name = to_ascii_lowercase h.name in
    let value = unwrap_or (from_utf8 h.value) [] in
    ground (
      arith,
      get-collect k rest (if is_empty h.name then m else Map.insert name value m),
      get-insert name k value m,
    )

-- A complete head keeps the parser's method and path, an empty method and `/` where it has none, and
-- looking a name up in its map gives the value of the last header of that name in any ASCII case, as
-- text, or the empty text where the value is not UTF-8; headers without a name are left out.
pub parse-complete :
    (httparse : Bytes → Status) (buf : Bytes) (req : Parsed) (k : Str)
    → httparse buf ≡ complete req
    → (r : RequestHead) × (parse httparse buf ≡ head r)
      × (r.method ≡ unwrap_or req.method [])
      × (r.path ≡ unwrap_or req.path (codes "/"))
      × (Map.get k r.headers ≡ last_value k req.headers)
unfolding parse
parse-complete httparse buf req k e = (
  record {
    method = unwrap_or req.method [];
    path = unwrap_or req.path (codes "/");
    headers = collect req.headers [];
  },
  rw (e, parse),
  refl,
  refl,
  get-collect k req.headers [] ∙ over-none (last_value k req.headers),
)
  where
    over-none : (o : Option Str) → over o (Map.get k []) ≡ o
    over-none (some v) = refl
    over-none none = unfold Map.get in refl
