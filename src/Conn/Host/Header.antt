-- ===== src/Conn/Host/Header.antt =====
-- The host of a plain HTTP request.
use condukt.Prelude.{
  ℕ, ◌≡◌, ◌≢◌, refl, sym, ap, ◌∙◌, ◌⊎◌, inl, inr, false, List, [], ◌∷◌, ◌++◌, Option, none, some,
  Str, codes, All, arith, Option-cases, strip_prefix, strip_prefix-eq_some, ◌==◌,
}
use condukt.Prelude.Bytes.{Bytes, from_utf8, lines, trim}
use condukt.Event.{https_port}
use condukt.Sni.{TlsParser, looks_like_tls}
use condukt.Conn.Host.{or_else, strip_host, host_in_lines, host_in_text, unwrap_or, identify_host}

-- The three spellings that the code looks for.
pub data IsHostName : Str → Type 0 where
  capital : IsHostName (codes "Host:")
  small : IsHostName (codes "host:")
  shouted : IsHostName (codes "HOST:")

-- no line begins with one of the spellings
abbrev pub HasNoHost : Str → Type 0
HasNoHost line = (name rest : Str) → IsHostName name → line ≢ name ++ rest

-- The first line that begins with one of the spellings, and what follows the spelling.
pub record FirstHost (text_lines : List Str) (value : Str) : Type 0 where
  pub before : List Str
  pub after : List Str
  pub name : Str
  pub rest : Str
  pub split : text_lines ≡ before ++ (name ++ rest) ∷ after
  pub all_before : All HasNoHost before
  pub is_name : IsHostName name
  pub trimmed : value ≡ trim rest

or_else_cases :
    (a b c : Option Str) {r : Str}
    → or_else (or_else a b) c ≡ some r
    → (a ≡ some r) ⊎ (b ≡ some r) ⊎ (c ≡ some r)
or_else_cases (some a) b c h = inl h
or_else_cases none (some b) c h = inr (inl h)
or_else_cases none none c h = inr (inr h)

strip_host-some :
    (line rest : Str)
    → strip_host line ≡ some rest
    → (name : Str) × IsHostName name × (line ≡ name ++ rest)
strip_host-some line rest h =
    elim (or_else_cases (strip_prefix (codes "Host:") line) (strip_prefix (codes "host:") line)
      (strip_prefix (codes "HOST:") line) h) [
        | inl e ↦ (codes "Host:", capital, strip_prefix-eq_some (codes "Host:") line rest e)
        | inr (inl e) ↦ (codes "host:", small, strip_prefix-eq_some (codes "host:") line rest e)
        | inr (inr e) ↦ (codes "HOST:", shouted, strip_prefix-eq_some (codes "HOST:") line rest e)
      ]

strip_host-append :
    {name : Str} (rest : Str) → IsHostName name → strip_host (name ++ rest) ≡ some rest
strip_host-append rest capital = refl
strip_host-append rest small = refl
strip_host-append rest shouted = refl

HasNoHost-of_none : (line : Str) → strip_host line ≡ none → HasNoHost line
HasNoHost-of_none line h name rest n e =
    absurd (ground (arith, sym h ∙ (ap strip_host e ∙ strip_host-append rest n)))

none_of_HasNoHost : (line : Str) → HasNoHost line → strip_host line ≡ none
none_of_HasNoHost line h = elim (Option-cases (strip_host line)) [
  | inl e ↦ e
  | inr (r, e) ↦ let (name, n, split) = strip_host-some line r e in absurd (h name r n split)
]

FirstHost-later :
    {ls : List Str} {value : Str} (line : Str)
    → HasNoHost line
    → FirstHost ls value
    → FirstHost (line ∷ ls) value
FirstHost-later line n f = record {
  before = line ∷ f.before;
  after = f.after;
  name = f.name;
  rest = f.rest;
  split = ap (λ ls. line ∷ ls) f.split;
  all_before = (n, f.all_before);
  is_name = f.is_name;
  trimmed = f.trimmed;
}

FirstHost-here :
    (line : Str) (ls : List Str) {value : Str} (rest : Str)
    → strip_host line ≡ some rest
    → value ≡ trim rest
    → FirstHost (line ∷ ls) value
FirstHost-here line ls rest e v =
    let (name, n, split) = strip_host-some line rest e in
    record {
      before = [];
      after = ls;
      name = name;
      rest = rest;
      split = ap (λ l. l ∷ ls) split;
      all_before = tt;
      is_name = n;
      trimmed = v;
    }

host_in_lines-some :
    (ls : List Str) (value : Str) → host_in_lines ls ≡ some value → FirstHost ls value
unfolding host_in_lines
host_in_lines-some [] value h = absurd (ground arith)
host_in_lines-some (line ∷ ls) value h = elim (Option-cases (strip_host line)) [
  | inl e ↦
      FirstHost-later line (HasNoHost-of_none line e) (host_in_lines-some ls value (ground arith))
  | inr (r, e) ↦ FirstHost-here line ls r e (ground arith)
]

host_in_lines-none : (ls : List Str) → host_in_lines ls ≡ none → All HasNoHost ls
unfolding host_in_lines
host_in_lines-none [] h = tt
host_in_lines-none (line ∷ ls) h = elim (Option-cases (strip_host line)) [
  | inl e ↦ (HasNoHost-of_none line e, host_in_lines-none ls (ground arith))
  | inr (r, e) ↦ absurd (ground arith)
]

host_in_lines-skip :
    (before ls : List Str) → All HasNoHost before → host_in_lines (before ++ ls) ≡ host_in_lines ls
unfolding host_in_lines
host_in_lines-skip [] ls h = refl
host_in_lines-skip (line ∷ before) ls h =
    ground (arith, none_of_HasNoHost line h.0, host_in_lines-skip before ls h.1)

host_in_lines-found :
    (ls : List Str) {name : Str} (rest : Str)
    → IsHostName name
    → host_in_lines ((name ++ rest) ∷ ls) ≡ some (trim rest)
unfolding host_in_lines
host_in_lines-found ls rest n = ground (arith, strip_host-append rest n)

host_in_lines-FirstHost :
    {ls : List Str} {value : Str} → FirstHost ls value → host_in_lines ls ≡ some value
host_in_lines-FirstHost f =
    ap host_in_lines f.split
    ∙ (host_in_lines-skip f.before _ f.all_before
        ∙ (host_in_lines-found f.after f.rest f.is_name ∙ ap some (sym f.trimmed)))

identify_host_by_lines :
    (tls : TlsParser) (bytes : Bytes) (port : ℕ) (dst_ip text : Str)
    → port ≢ https_port
    → looks_like_tls bytes ≡ false
    → from_utf8 bytes ≡ some text
    → identify_host tls bytes port dst_ip ≡ unwrap_or (host_in_lines (lines text)) dst_ip
identify_host_by_lines tls bytes port dst_ip text n t u =
    plain_branch (not_https port n) t ∙ ap (λ o. unwrap_or (host_in_text o) dst_ip) u
  where
    not_https : (port : ℕ) → port ≢ https_port → (port == https_port) ≡ false
    not_https port n = ground arith

    plain_branch :
        (port == https_port) ≡ false
        → looks_like_tls bytes ≡ false
        → identify_host tls bytes port dst_ip ≡ unwrap_or (host_in_text (from_utf8 bytes)) dst_ip
    plain_branch e f = unfold identify_host in rw (e, f)

no_host : (ls : List Str) → All HasNoHost ls → host_in_lines ls ≡ none
unfolding host_in_lines
no_host [] h = refl
no_host (line ∷ ls) h = ground (arith, none_of_HasNoHost line h.0, no_host ls h.1)

-- On a port other than 443 and with bytes that are UTF-8 and do not look like TLS, the identified
-- host is the trimmed rest of the first line that begins with `Host:`, `host:` or `HOST:`; and where
-- no line begins with one of these three spellings, whatever other spelling of the header's name the
-- request uses, it is the destination address.
pub identify_host_plain :
    (tls : TlsParser) (bytes : Bytes) (port : ℕ) (dst_ip text : Str)
    → port ≢ https_port
    → looks_like_tls bytes ≡ false
    → from_utf8 bytes ≡ some text
    → ((value : Str) → FirstHost (lines text) value → identify_host tls bytes port dst_ip ≡ value)
      × (All HasNoHost (lines text) → identify_host tls bytes port dst_ip ≡ dst_ip)
identify_host_plain tls bytes port dst_ip text n t u =
    let by_lines = identify_host_by_lines tls bytes port dst_ip text n t u in
    (
      λ value f. by_lines ∙ ap (λ o. unwrap_or o dst_ip) (host_in_lines-FirstHost f),
      λ h. by_lines ∙ ap (λ o. unwrap_or o dst_ip) (no_host (lines text) h),
    )
