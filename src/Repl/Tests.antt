-- ===== src/Repl/Tests.antt =====
-- Runs of tests/test_repl.cpp.
use proxchunk.Prelude.{◌≡◌, refl, none, some, [], ◌∷◌, codes}
use proxchunk.Repl.{tokenize_repl_line}

tokenize_repl_line_quotes :
    tokenize_repl_line (codes "ls 'a b' c\\ d") ≡ some (codes "ls" ∷ codes "a b" ∷ codes "c d" ∷ [])
unfolding tokenize_repl_line
tokenize_repl_line_quotes = refl

tokenize_repl_line_unmatched : tokenize_repl_line (codes "cat 'a") ≡ none
unfolding tokenize_repl_line
tokenize_repl_line_unmatched = refl
