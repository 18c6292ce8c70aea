-- ===== src/Bashkit/Script/Words.antt =====
-- The commands that a session builds, as a shell reads them.
use condukt.Prelude.{
  ℕ, zero, suc, ◌≡◌, refl, ap, ◌∙◌, Bool, true, false, List, [], ◌∷◌, ◌++◌, Option, none, some, Str,
  codes, ◌==◌, if◌then◌else◌, append_assoc,
}
use condukt.Bashkit.Text.{quote, escape_single_quotes}
use condukt.Bashkit.Text.Quoting.{read_word, outside, IsEnd, ending, read_word-escape_single_quotes}
use condukt.Bashkit.Script.{cd_prefix, grep_script}

abbrev skip_blanks : Str → Str
skip_blanks [] = []
skip_blanks (c ∷ s) = let onward = skip_blanks s in if c == b' ' then onward else c ∷ s

abbrev next_word : Option (Str × Str) → (Str → List Str) → List Str
next_word none onward = []
next_word (some (word, rest)) onward = word ∷ onward rest

-- The first `n` words of a command, up to one that does not end.
abbrev pub words : ℕ → Str → List Str
words zero s = []
words (suc n) s = next_word (read_word outside (skip_blanks s)) (words n)

-- A quoted text is the next word.
words-quoted :
    (n : ℕ) (s rest : Str)
    → IsEnd rest
    → words (suc n) (codes " '" ++ (escape_single_quotes s ++ (quote ∷ rest))) ≡ s ∷ words n rest
words-quoted n s rest e = ap (λ r. next_word r (words n)) (read_word-escape_single_quotes s rest e)

-- two quoted texts in a row
words-two_quoted :
    (s t rest : Str)
    → IsEnd rest
    → words 2 (
        codes " '"
        ++ (escape_single_quotes s ++ (codes "' '" ++ (escape_single_quotes t ++ (quote ∷ rest)))))
      ≡ s ∷ t ∷ []
words-two_quoted s t rest e =
    words-quoted 1 s (codes " '" ++ (escape_single_quotes t ++ (quote ∷ rest))) (ending _ refl)
    ∙ ap (λ w. s ∷ w) (words-quoted 0 t rest e)

-- The command of `grep` begins with the words `grep`, its options, the pattern and the root, and
-- pattern and root are the given texts to the letter, whatever characters they hold. The options are
-- `-rnHE`, and for a search that ignores case the word is `-rnHE-i`.
pub words-grep_script :
    (pattern root : Str) (case_sensitive : Bool)
    → words 4 (grep_script pattern root case_sensitive)
      ≡ codes "grep"
        ∷ (if case_sensitive then codes "-rnHE" else codes "-rnHE-i")
        ∷ pattern
        ∷ root
        ∷ []
unfolding grep_script read_word
words-grep_script pattern root true =
    ap (λ w. codes "grep" ∷ codes "-rnHE" ∷ w)
      (words-two_quoted pattern root (codes " || true") (ending _ refl))
words-grep_script pattern root false =
    ap (λ w. codes "grep" ∷ codes "-rnHE-i" ∷ w)
      (words-two_quoted pattern root (codes " || true") (ending _ refl))

-- The command of `glob` in a directory begins with the words `cd` and that directory to the letter.
pub words-cd_prefix :
    (cwd rest : Str) → words 2 (cd_prefix (some cwd) ++ rest) ≡ codes "cd" ∷ cwd ∷ []
unfolding read_word
words-cd_prefix cwd rest =
    ap (λ s. words 2 (codes "cd '" ++ s))
      (append_assoc (escape_single_quotes cwd) (codes "' && ") rest)
    ∙ ap (λ w. codes "cd" ∷ w) (words-quoted 0 cwd (codes " && " ++ rest) (ending _ refl))
