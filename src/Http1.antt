-- ===== src/Http1.antt =====
-- native/condukt_egress/src/proxy/http1.rs: the head of an HTTP/1.1 request. The crate `httparse`
-- is a parameter.
pub mod Headers
mod Tests
use condukt.Prelude.{
  Bool, true, false, List, [], ◌∷◌, Option, none, some, Str, codes, if◌then◌else◌, is_empty,
  to_ascii_lowercase,
}
use condukt.Prelude.Map
use condukt.Prelude.Map.{Map}
use condukt.Prelude.Bytes.{Bytes, from_utf8}

pub record Header : Type 0 where
  pub name : Str
  pub value : Bytes

-- what `httparse` leaves in its request when the head is complete
pub record Parsed : Type 0 where
  pub method : Option Str
  pub path : Option Str
  pub headers : List Header

pub data Status : Type 0 where
  complete : Parsed → Status
  partial : Status
  malformed : Status

pub record RequestHead : Type 0 where
  pub method : Str
  pub path : Str
  pub headers : Map Str

-- `Result<Option<RequestHead>, httparse::Error>`
pub data Head : Type 0 where
  head : RequestHead → Head
  more : Head
  error : Head

abbrev pub unwrap_or {ℓ} : {A : Type ℓ} → Option A → A → A
unwrap_or (some a) d = a
unwrap_or none d = d

-- the loop that fills the map
unfoldable pub collect : List Header → Map Str → Map Str
collect [] hmap = hmap
collect (h ∷ rest) hmap = collect rest (
    if is_empty h.name
    then hmap
    else Map.insert (to_ascii_lowercase h.name) (unwrap_or (from_utf8 h.value) []) hmap)

unfoldable pub parse : (Bytes → Status) → Bytes → Head
unfolding collect
parse httparse buf = elim (httparse buf) [
  | partial ↦ more
  | malformed ↦ error
  | complete req ↦ head (record {
    method = unwrap_or req.method [];
    path = unwrap_or req.path (codes "/");
    headers = collect req.headers [];
  })
]
