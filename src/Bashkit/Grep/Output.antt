-- ===== src/Bashkit/Grep/Output.antt =====
-- Reading back what grep prints.
use condukt.Prelude.{
  ℕ, ◌≤◌, ◌≡◌, ◌≢◌, refl, sym, ap, ◌∙◌, List, [], ◌∷◌, ◌++◌, some, Str, ==_iff, arith, All,
  All-append, append_assoc, append-nil,
}
use condukt.Prelude.Bytes.{strip_cr, lines_from, lines}
use condukt.Prelude.Decimal.{decimal, u64_max, parse_u64-decimal, IsDigit, decimal-IsDigit}
use condukt.Bashkit.Grep.{GrepMatch, colon, split_colon, parse_line, parse_lines, parse_grep}

abbrev pub newline : ℕ
newline = 10

-- a line of `grep -rnH`
abbrev pub render : GrepMatch → Str
render m = m.path ++ (colon ∷ (decimal m.line_number ++ (colon ∷ m.line)))

abbrev pub output_of : List GrepMatch → Str
output_of [] = []
output_of (m ∷ ms) = render m ++ (newline ∷ output_of ms)

-- A match that its line shows without loss.
pub record IsShown (m : GrepMatch) : Type 0 where
  pub no_colon : All (λ c. c ≢ colon) m.path
  pub one_line_path : All (λ c. c ≢ newline) m.path
  pub one_line : All (λ c. c ≢ newline) m.line
  pub no_carriage_return : strip_cr m.line ≡ m.line
  pub in_range : m.line_number ≤ u64_max

split_colon-append :
    (a b : Str) → All (λ c. c ≢ colon) a → split_colon (a ++ (colon ∷ b)) ≡ some (a, b)
unfolding split_colon
split_colon-append [] b h = refl
split_colon-append (c ∷ a) b h = ground (arith, split_colon-append a b h.1, ==_iff c colon, h.0)

no_colon_in_digits : (s : Str) → All IsDigit s → All (λ c. c ≢ colon) s
no_colon_in_digits [] h = tt
no_colon_in_digits (c ∷ s) h = (λ e. omega (arith, e, h.0.0, h.0.1), no_colon_in_digits s h.1)

one_line_of_digits : (s : Str) → All IsDigit s → All (λ c. c ≢ newline) s
one_line_of_digits [] h = tt
one_line_of_digits (c ∷ s) h = (λ e. omega (arith, e, h.0.0, h.0.1), one_line_of_digits s h.1)

parse_line-render : (m : GrepMatch) → IsShown m → parse_line (render m) ≡ some m
unfolding parse_line
parse_line-render m h =
    rw
      (
        split_colon-append m.path (decimal m.line_number ++ (colon ∷ m.line)) h.no_colon,
        split_colon-append (decimal m.line_number) m.line
            (no_colon_in_digits (decimal m.line_number) (decimal-IsDigit m.line_number)),
        parse_u64-decimal m.line_number h.in_range,
      )
      refl

lines_from-append :
    (line s rest : Str)
    → All (λ c. c ≢ newline) s
    → lines_from line (s ++ (newline ∷ rest)) ≡ strip_cr (line ++ s) ∷ lines_from [] rest
unfolding lines_from
lines_from-append line [] rest h = ap (λ l. strip_cr l ∷ lines_from [] rest) (sym (append-nil line))
lines_from-append line (c ∷ s) rest h = ground (
  arith,
  lines_from-append (line ++ (c ∷ [])) s rest h.1,
  append_assoc line (c ∷ []) s,
  ==_iff c newline,
  h.0,
)

strip_cr-append : (a : Str) (c : ℕ) (s : Str) → strip_cr (a ++ (c ∷ s)) ≡ a ++ strip_cr (c ∷ s)
strip_cr-append [] c s = refl
strip_cr-append (x ∷ []) c s = refl
strip_cr-append (x ∷ y ∷ a) c s = ap (λ l. x ∷ l) (strip_cr-append (y ∷ a) c s)

strip_cr-colon : (line : Str) → strip_cr line ≡ line → strip_cr (colon ∷ line) ≡ colon ∷ line
strip_cr-colon [] h = refl
strip_cr-colon (c ∷ line) h = ap (λ l. colon ∷ l) h

strip_cr-render : (m : GrepMatch) → IsShown m → strip_cr (render m) ≡ render m
strip_cr-render m h =
    strip_cr-append m.path colon (decimal m.line_number ++ (colon ∷ m.line))
    ∙ ap (λ l. m.path ++ l)
        (strip_cr-append (colon ∷ decimal m.line_number) colon m.line
          ∙ ap (λ l. (colon ∷ decimal m.line_number) ++ l)
              (strip_cr-colon m.line h.no_carriage_return))

one_line_of_render : (m : GrepMatch) → IsShown m → All (λ c. c ≢ newline) (render m)
one_line_of_render m h =
    All-append (λ c. c ≢ newline) m.path (colon ∷ (decimal m.line_number ++ (colon ∷ m.line)))
      h.one_line_path
      (
        (λ e. omega (arith, e)),
        All-append (λ c. c ≢ newline) (decimal m.line_number) (colon ∷ m.line)
            (one_line_of_digits (decimal m.line_number) (decimal-IsDigit m.line_number))
            ((λ e. omega (arith, e)), h.one_line),
      )

parse_lines-some :
    (line : Str) (m : GrepMatch) (rest : List Str)
    → parse_line line ≡ some m
    → parse_lines (line ∷ rest) ≡ m ∷ parse_lines rest
unfolding parse_lines
parse_lines-some line m rest e = ground (arith, e)

lines_from-output_of :
    (ms : List GrepMatch) → All IsShown ms → parse_lines (lines_from [] (output_of ms)) ≡ ms
lines_from-output_of [] h = unfold lines_from parse_lines in refl
lines_from-output_of (m ∷ ms) h =
    ap parse_lines (lines_from-append [] (render m) (output_of ms) (one_line_of_render m h.0))
    ∙ (parse_lines-some (strip_cr (render m)) m (lines_from [] (output_of ms))
          (ap parse_line (strip_cr-render m h.0) ∙ parse_line-render m h.0)
        ∙ ap (λ r. m ∷ r) (lines_from-output_of ms h.1))

-- Reading the lines that show a list of matches gives back the list, whatever the matched lines hold,
-- colons included: for matches with a path without colon or newline, a line without newline that does
-- not end in a carriage return, and a line number below 2 ^ 64.
pub parse_grep-output_of : (ms : List GrepMatch) → All IsShown ms → parse_grep (output_of ms) ≡ ms
unfolding parse_grep lines
parse_grep-output_of ms h = lines_from-output_of ms h
