-- ===== src/Glob/Compile/Loop.antt =====
-- The loop of `compile`, and how tokens write down a pattern.
use condukt.Prelude.{
  ℕ, ◌≡◌, ◌≢◌, refl, sym, ap, ◌∙◌, List, [], ◌∷◌, ◌++◌, Str, arith, All, ◌==◌, ==_iff, Bool-cases,
  inl, inr, append-nil, append_assoc,
}
use condukt.Glob.{Token, literal, star, double_star, asterisk, flush, compile_loop}

abbrev pub render_token : Token → Str
render_token (literal l) = l
render_token star = asterisk ∷ []
render_token double_star = asterisk ∷ asterisk ∷ []

-- the pattern text of tokens
abbrev pub render : List Token → Str
render [] = []
render (t ∷ ts) = render_token t ++ render ts

abbrev pub StartsPlain : Str → Type 0
StartsPlain [] = Unit
StartsPlain (c ∷ s) = c ≢ asterisk

abbrev pub NoStar : List Token → Type 0
NoStar [] = Unit
NoStar (literal l ∷ ts) = Unit
NoStar (t ∷ ts) = ⊥

abbrev pub NoLiteral : List Token → Type 0
NoLiteral [] = Unit
NoLiteral (literal l ∷ ts) = ⊥
NoLiteral (t ∷ ts) = Unit

-- Literals are nonempty, hold no asterisk and are not adjacent, and no star follows a single star.
abbrev pub IsNormal : List Token → Type 0
IsNormal [] = Unit
IsNormal (literal l ∷ ts) = (l ≢ []) × All (λ c. c ≢ asterisk) l × NoLiteral ts × IsNormal ts
IsNormal (star ∷ ts) = NoStar ts × IsNormal ts
IsNormal (double_star ∷ ts) = IsNormal ts

-- The loop, one rule for each of its branches.
flush-tokens : (tokens : List Token) (lit : Str) → flush tokens lit ≡ tokens ++ flush [] lit
flush-tokens tokens [] = sym (append-nil tokens)
flush-tokens tokens (c ∷ lit) = refl

pub loop_end : (lit : Str) (tokens : List Token) → compile_loop [] lit tokens ≡ flush tokens lit
unfolding compile_loop
loop_end lit tokens = refl

pub loop_plain :
    (c : ℕ) (rest lit : Str) (tokens : List Token)
    → c ≢ asterisk
    → compile_loop (c ∷ rest) lit tokens ≡ compile_loop rest (lit ++ c ∷ []) tokens
unfolding compile_loop
loop_plain c [] lit tokens n = ground arith
loop_plain c (d ∷ rest) lit tokens n = ground arith

pub loop_double :
    (rest lit : Str) (tokens : List Token)
    → compile_loop (asterisk ∷ asterisk ∷ rest) lit tokens
      ≡ compile_loop rest [] (flush tokens lit ++ double_star ∷ [])
unfolding compile_loop
loop_double rest lit tokens = refl

pub loop_star :
    (rest lit : Str) (tokens : List Token)
    → StartsPlain rest
    → compile_loop (asterisk ∷ rest) lit tokens
      ≡ compile_loop rest [] (flush tokens lit ++ star ∷ [])
unfolding compile_loop
loop_star [] lit tokens p = refl
loop_star (d ∷ rest) lit tokens p = ground arith

-- A text read as the loop reads it, for induction.
pub data View : Str → Type 0 where
  end : View []
  plain : {rest : Str} (c : ℕ) → c ≢ asterisk → View rest → View (c ∷ rest)
  single : {rest : Str} → StartsPlain rest → View rest → View (asterisk ∷ rest)
  double : {rest : Str} → View rest → View (asterisk ∷ asterisk ∷ rest)

View-single : (c : ℕ) {rest : Str} → c ≡ asterisk → StartsPlain rest → View rest → View (c ∷ rest)
View-single c e p v = rw e (single p v)

View-double : (c d : ℕ) {rest : Str} → c ≡ asterisk → d ≡ asterisk → View rest → View (c ∷ d ∷ rest)
View-double c d e e' v = rw (e, e') (double v)

pub view : (s : Str) → View s
view [] = end
view (c ∷ []) = elim (Bool-cases (c == asterisk)) [
  | inl e ↦ View-single c ((==_iff c asterisk).0 e) tt end
  | inr e ↦ plain c (ground arith) end
]
view (c ∷ d ∷ rest) = elim (Bool-cases (c == asterisk)) [
  | inl e ↦ elim (Bool-cases (d == asterisk)) [
    | inl e' ↦ View-double c d ((==_iff c asterisk).0 e) ((==_iff d asterisk).0 e') (view rest)
    | inr e' ↦ View-single c ((==_iff c asterisk).0 e) (ground arith) (view (d ∷ rest))
  ]
  | inr e ↦ plain c (ground arith) (view (d ∷ rest))
]

render-append : (ts us : List Token) → render (ts ++ us) ≡ render ts ++ render us
render-append [] us = refl
render-append (t ∷ ts) us =
    ap (λ s. render_token t ++ s) (render-append ts us)
    ∙ sym (append_assoc (render_token t) (render ts) (render us))

render-flush : (tokens : List Token) (lit : Str) → render (flush tokens lit) ≡ render tokens ++ lit
render-flush tokens [] = sym (append-nil (render tokens))
render-flush tokens (c ∷ lit) = simp (render-append, append-nil)

-- What the loop has read is what its tokens and its pending literal write down.
pub render-loop :
    {p : Str}
    → View p
    → (lit : Str) (tokens : List Token)
    → render (compile_loop p lit tokens) ≡ render tokens ++ (lit ++ p)
render-loop end lit tokens = rw loop_end (simp append-nil (render-flush tokens lit))
render-loop (plain {rest} c n v) lit tokens =
    rw (loop_plain c rest lit tokens n, render-loop v (lit ++ c ∷ []) tokens) (simp append_assoc)
render-loop (single {rest} p v) lit tokens =
    rw (loop_star rest lit tokens p, render-loop v [] (flush tokens lit ++ star ∷ []))
      (simp (render-append, render-flush, append_assoc))
render-loop (double {rest} v) lit tokens =
    rw (loop_double rest lit tokens, render-loop v [] (flush tokens lit ++ double_star ∷ []))
      (simp (render-append, render-flush, append_assoc))

-- Finished tokens stay in front.
push_token :
    (rest lit : Str) (tokens : List Token) (t : Token)
    → ((us : List Token) → compile_loop rest [] us ≡ us ++ compile_loop rest [] [])
    → compile_loop rest [] (flush tokens lit ++ t ∷ [])
      ≡ tokens ++ compile_loop rest [] (flush [] lit ++ t ∷ [])
push_token rest lit tokens t ih =
    rw (ih (flush tokens lit ++ t ∷ []), ih (flush [] lit ++ t ∷ []), flush-tokens tokens lit)
      (simp append_assoc)

pub loop-tokens :
    {p : Str}
    → View p
    → (lit : Str) (tokens : List Token)
    → compile_loop p lit tokens ≡ tokens ++ compile_loop p lit []
loop-tokens end lit tokens = simp loop_end (flush-tokens tokens lit)
loop-tokens (plain {rest} c n v) lit tokens =
    simp (loop_plain c rest lit tokens n, loop_plain c rest lit [] n)
      (loop-tokens v (lit ++ c ∷ []) tokens)
loop-tokens (single {rest} p v) lit tokens =
    simp (loop_star rest lit tokens p, loop_star rest lit [] p)
      (push_token rest lit tokens star (loop-tokens v []))
loop-tokens (double {rest} v) lit tokens =
    simp (loop_double rest lit tokens, loop_double rest lit [])
      (push_token rest lit tokens double_star (loop-tokens v []))
