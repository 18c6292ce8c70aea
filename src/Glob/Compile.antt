-- ===== src/Glob/Compile.antt =====
-- `compile` is the inverse of writing tokens down.
pub mod Loop
use condukt.Prelude.{
  ℕ, ◌≡◌, ◌≢◌, refl, sym, ap, ◌∙◌, ◌↔◌, List, [], ◌∷◌, ◌++◌, Str, arith, All, All-append, ◌==◌,
  ==_iff, Bool-cases, inl, inr, append-nil, append_assoc,
}
use condukt.Glob.{Token, literal, star, double_star, asterisk, flush, compile_loop, compile}
use condukt.Glob.Compile.Loop.{
  render_token, render, StartsPlain, NoStar, NoLiteral, IsNormal, loop_end, loop_plain, loop_double,
  loop_star, View, end, plain, single, double, view, render-loop, loop-tokens,
}

loop_star_cons :
    {rest : Str} (lit : Str)
    → StartsPlain rest
    → View rest
    → compile_loop (asterisk ∷ rest) lit [] ≡ flush [] lit ++ (star ∷ compile_loop rest [] [])
loop_star_cons {rest} lit p v =
    loop_star rest lit [] p
    ∙ (loop-tokens v [] (flush [] lit ++ star ∷ [])
        ∙ append_assoc (flush [] lit) (star ∷ []) (compile_loop rest [] []))

loop_double_cons :
    {rest : Str} (lit : Str)
    → View rest
    → compile_loop (asterisk ∷ asterisk ∷ rest) lit []
      ≡ flush [] lit ++ (double_star ∷ compile_loop rest [] [])
loop_double_cons {rest} lit v =
    loop_double rest lit []
    ∙ (loop-tokens v [] (flush [] lit ++ double_star ∷ [])
        ∙ append_assoc (flush [] lit) (double_star ∷ []) (compile_loop rest [] []))

NoStar-flush : (lit : Str) (ts : List Token) → lit ≢ [] → NoStar (flush [] lit ++ ts)
NoStar-flush [] ts n = absurd (n refl)
NoStar-flush (c ∷ lit) ts n = tt

snoc-ne-nil : (s : Str) (c : ℕ) → s ++ c ∷ [] ≢ []
snoc-ne-nil [] c e = cc
snoc-ne-nil (d ∷ s) c e = cc

NoStar-loop_lit : {p : Str} → View p → (lit : Str) → lit ≢ [] → NoStar (compile_loop p lit [])
NoStar-loop_lit end [] n = absurd (n refl)
NoStar-loop_lit end (c ∷ lit) n = rw loop_end tt
NoStar-loop_lit (plain {rest} c m v) lit n =
    rw (loop_plain c rest lit [] m) (NoStar-loop_lit v (lit ++ c ∷ []) (snoc-ne-nil lit c))
NoStar-loop_lit (single {rest} p v) lit n = rw (loop_star_cons lit p v) (NoStar-flush lit _ n)
NoStar-loop_lit (double {rest} v) lit n = rw (loop_double_cons lit v) (NoStar-flush lit _ n)

NoStar-loop : {p : Str} → View p → StartsPlain p → NoStar (compile_loop p [] [])
NoStar-loop end h = rw loop_end tt
NoStar-loop (plain {rest} c m v) h =
    rw (loop_plain c rest [] [] m) (NoStar-loop_lit v (c ∷ []) (λ e. cc))
NoStar-loop (single p v) h = absurd (h refl)
NoStar-loop (double v) h = absurd (h refl)

IsNormal-flush :
    (lit : Str) (ts : List Token)
    → All (λ c. c ≢ asterisk) lit
    → NoLiteral ts
    → IsNormal ts
    → IsNormal (flush [] lit ++ ts)
IsNormal-flush [] ts a l n = n
IsNormal-flush (c ∷ lit) ts a l n = ((λ e. cc), a, l, n)

IsNormal-loop :
    {p : Str}
    → View p
    → (lit : Str) → All (λ c. c ≢ asterisk) lit
    → IsNormal (compile_loop p lit [])
IsNormal-loop end [] a = rw loop_end tt
IsNormal-loop end (c ∷ lit) a = rw loop_end ((λ e. cc), a, tt, tt)
IsNormal-loop (plain {rest} c m v) lit a =
    rw (loop_plain c rest lit [] m)
      (IsNormal-loop v (lit ++ c ∷ []) (All-append _ lit (c ∷ []) a (m, tt)))
IsNormal-loop (single {rest} p v) lit a = rw (loop_star_cons lit p v) (
    IsNormal-flush lit (star ∷ compile_loop rest [] []) a tt
      (NoStar-loop v p, IsNormal-loop v [] tt))
IsNormal-loop (double {rest} v) lit a =
    rw (loop_double_cons lit v)
      (IsNormal-flush lit (double_star ∷ compile_loop rest [] []) a tt (IsNormal-loop v [] tt))

-- The other way: normal tokens come back from the text that they write down.
StartsPlain-append : (l s : Str) → l ≢ [] → All (λ c. c ≢ asterisk) l → StartsPlain (l ++ s)
StartsPlain-append [] s n a = absurd (n refl)
StartsPlain-append (c ∷ l) s n a = a.0

StartsPlain-render : (ts : List Token) → NoStar ts → IsNormal ts → StartsPlain (render ts)
StartsPlain-render [] p n = tt
StartsPlain-render (literal l ∷ ts) p (m, a, _, _) = StartsPlain-append l (render ts) m a
StartsPlain-render (star ∷ ts) p n = absurd p
StartsPlain-render (double_star ∷ ts) p n = absurd p

loop_literal :
    (l rest lit : Str)
    → All (λ c. c ≢ asterisk) l
    → compile_loop (l ++ rest) lit [] ≡ compile_loop rest (lit ++ l) []
loop_literal [] rest lit a = rw append-nil
loop_literal (c ∷ l) rest lit a =
    loop_plain c (l ++ rest) lit [] a.0
    ∙ (loop_literal l rest (lit ++ c ∷ []) a.1 ∙ rw append_assoc)

loop_flush :
    (ts : List Token) (lit : Str)
    → NoLiteral ts
    → IsNormal ts
    → compile_loop (render ts) lit [] ≡ flush [] lit ++ compile_loop (render ts) [] []
loop_flush [] lit l n = simp (loop_end, append-nil)
loop_flush (literal k ∷ ts) lit l n = absurd l
loop_flush (star ∷ ts) lit l n =
    let p = StartsPlain-render ts n.0 n.1 in
    loop_star_cons lit p (view (render ts))
    ∙ ap (λ us. flush [] lit ++ us) (sym (loop_star_cons [] p (view (render ts))))
loop_flush (double_star ∷ ts) lit l n =
    loop_double_cons lit (view (render ts))
    ∙ ap (λ us. flush [] lit ++ us) (sym (loop_double_cons [] (view (render ts))))

flush-literal : (l : Str) (ts : List Token) → l ≢ [] → flush [] l ++ ts ≡ literal l ∷ ts
flush-literal [] ts n = absurd (n refl)
flush-literal (c ∷ l) ts n = refl

loop-render : (ts : List Token) → IsNormal ts → compile_loop (render ts) [] [] ≡ ts
loop-render [] n = rw loop_end
loop-render (literal l ∷ ts) (m, a, k, n) =
    loop_literal l (render ts) [] a
    ∙ (loop_flush ts l k n ∙ (flush-literal l _ m ∙ ap (λ us. literal l ∷ us) (loop-render ts n)))
loop-render (star ∷ ts) n =
    loop_star_cons [] (StartsPlain-render ts n.0 n.1) (view (render ts))
    ∙ ap (λ us. star ∷ us) (loop-render ts n.1)
loop-render (double_star ∷ ts) n =
    loop_double_cons [] (view (render ts)) ∙ ap (λ us. double_star ∷ us) (loop-render ts n)

-- `compile` returns the tokens exactly when they are in normal form (literals nonempty, without an
-- asterisk and not adjacent, no star directly behind a single star) and write down the pattern.
pub compile_iff : (s : Str) (ts : List Token) → (compile s ≡ ts) ↔ (IsNormal ts × (render ts ≡ s))
unfolding compile
compile_iff s ts = (
  λ e. rw (← e) (IsNormal-loop (view s) [] tt, render-loop (view s) [] []),
  λ h. rw (← h.1) (loop-render ts h.0),
)
