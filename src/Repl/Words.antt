-- ===== src/Repl/Words.antt =====
-- Words that are quoted or escaped are read back as they are.
use proxchunk.Prelude.{
  ℕ, ◌≡◌, refl, sym, ap, ◌∙◌, inl, inr, Bool, true, false, none, some, List, [], ◌∷◌, ◌++◌,
  append-nil, append_assoc, arith, ◌==◌, if◌then◌else◌, Bool-cases, Bytes, contains_byte,
}
use proxchunk.Repl.{classify, flush, tokenize_from, tokenize_repl_line}

-- A backslash before every byte.
pub escaped : Bytes → Bytes
escaped [] = []
escaped (c ∷ w) = b'\\' ∷ c ∷ escaped w

-- A word in single quotes, or with escapes where it holds such a quote.
written : Bytes → Bytes
unfolding escaped
written w = if contains_byte b'\'' w then escaped w else b'\'' ∷ (w ++ b'\'' ∷ [])

pub written_line : List Bytes → Bytes
unfolding written
written_line [] = []
written_line (w ∷ []) = written w
written_line (w ∷ v ∷ ws) = written w ++ b' ' ∷ written_line (v ∷ ws)

tokenize_from-opening :
    (cur s : Bytes)
    → tokenize_from none false cur (b'\'' ∷ s) ≡ tokenize_from (some b'\'') true cur s
unfolding tokenize_from classify
tokenize_from-opening cur [] = refl
tokenize_from-opening cur (d ∷ s) = refl

tokenize_from-blank :
    (cur s : Bytes)
    → tokenize_from none true cur (b' ' ∷ s) ≡ flush true cur (tokenize_from none false [] s)
unfolding tokenize_from classify
tokenize_from-blank cur [] = refl
tokenize_from-blank cur (d ∷ s) = refl

tokenize_from-quoted :
    (w cur s : Bytes)
    → contains_byte b'\'' w ≡ false
    → tokenize_from (some b'\'') true cur (w ++ b'\'' ∷ s) ≡ tokenize_from none true (cur ++ w) s
unfolding tokenize_from contains_byte
tokenize_from-quoted [] cur s h = ap (λ x. tokenize_from none true x s) (sym (append-nil cur))
tokenize_from-quoted (c ∷ w) cur s h =
    let other : (c == b'\'') ≡ false = ground arith in
    rw other (
      tokenize_from-quoted w (cur ++ c ∷ []) s (ground arith)
      ∙ ap (λ x. tokenize_from none true x s) (append_assoc cur (c ∷ []) w))

tokenize_from-escape :
    (in_token : Bool) (cur : Bytes) (c : ℕ) (s : Bytes)
    → tokenize_from none in_token cur (b'\\' ∷ c ∷ s) ≡ tokenize_from none true (cur ++ c ∷ []) s
unfolding tokenize_from classify
tokenize_from-escape in_token cur c s = refl

tokenize_from-escaped :
    (w cur s : Bytes)
    → tokenize_from none true cur (escaped w ++ s) ≡ tokenize_from none true (cur ++ w) s
unfolding escaped
tokenize_from-escaped [] cur s = ap (λ x. tokenize_from none true x s) (sym (append-nil cur))
tokenize_from-escaped (c ∷ w) cur s =
    tokenize_from-escape true cur c (escaped w ++ s)
    ∙ tokenize_from-escaped w (cur ++ c ∷ []) s
    ∙ ap (λ x. tokenize_from none true x s) (append_assoc cur (c ∷ []) w)

-- A written word, in front of anything.
tokenize_from-written :
    (w s : Bytes) → tokenize_from none false [] (written w ++ s) ≡ tokenize_from none true w s
unfolding written escaped contains_byte
tokenize_from-written w s = elim (Bool-cases (contains_byte b'\'' w)) [
  | inr simple ↦ rw simple (
      tokenize_from-opening [] ((w ++ b'\'' ∷ []) ++ s)
      ∙ ap (tokenize_from (some b'\'') true []) (append_assoc w (b'\'' ∷ []) s)
      ∙ tokenize_from-quoted w [] s simple)
  | inl quotes ↦ rw quotes (of_escaped w quotes)
]
  where
    of_escaped :
        (v : Bytes)
        → contains_byte b'\'' v ≡ true
        → tokenize_from none false [] (escaped v ++ s) ≡ tokenize_from none true v s
    of_escaped [] h = absurd (ground arith)
    of_escaped (c ∷ v) h =
        tokenize_from-escape false [] c (escaped v ++ s) ∙ tokenize_from-escaped v (c ∷ []) s

-- Any words at all, empty ones and ones with quotes, blanks and backslashes among them, written each in
-- single quotes or with escapes and separated by a space, are read back as they are.
pub tokenize_repl_line-written_line :
    (ws : List Bytes) → tokenize_repl_line (written_line ws) ≡ some ws
unfolding tokenize_repl_line tokenize_from written_line
tokenize_repl_line-written_line [] = refl
tokenize_repl_line-written_line (w ∷ []) =
    ap (tokenize_from none false []) (sym (append-nil (written w))) ∙ tokenize_from-written w []
tokenize_repl_line-written_line (w ∷ v ∷ ws) =
    tokenize_from-written w (b' ' ∷ written_line (v ∷ ws))
    ∙ tokenize_from-blank w (written_line (v ∷ ws))
    ∙ ap (flush true w) (tokenize_repl_line-written_line (v ∷ ws))
