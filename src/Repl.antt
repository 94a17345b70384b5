-- ===== src/Repl.antt =====
-- include/proxchunk/repl.hpp: the words of a line of the console.
pub mod Commands
pub mod Words
mod Tests
use proxchunk.Prelude.{
  ℕ, Bool, true, false, ◌||◌, Option, none, some, List, [], ◌∷◌, ◌++◌, ◌==◌, if◌then◌else◌, Bytes,
}

-- What a byte outside quotes is; a backslash is an escape where a byte follows it.
pub data ReplByte : Type 0 where
  escape opening blank plain : ReplByte

pub classify : ℕ → ReplByte
classify c =
    if c == b'\\'
    then escape
    else if c == b'\'' || c == b'"'
    then opening
    else if c == b' ' || (c == b'\t' || (c == b'\r' || c == b'\n'))
    then blank
    else plain

-- `flush`, in front of the words of the rest.
abbrev pub flush : Bool → Bytes → Option (List Bytes) → Option (List Bytes)
flush in_token cur none = none
flush false cur (some words) = some words
flush true cur (some words) = some (cur ∷ words)

-- The loop: the quote that is open, whether a token has begun, and what it holds. `none` is an
-- unmatched quote.
pub tokenize_from : Option ℕ → Bool → Bytes → Bytes → Option (List Bytes)
unfolding classify
tokenize_from none in_token cur [] = flush in_token cur (some [])
tokenize_from (some quote) in_token cur [] = none
tokenize_from (some quote) in_token cur (c ∷ s) =
    let closed = tokenize_from none in_token cur s in
    let inside = tokenize_from (some quote) in_token (cur ++ c ∷ []) s in
    if c == quote then closed else inside
tokenize_from none in_token cur (c ∷ []) = elim (classify c) [
  | escape ↦ tokenize_from none true (cur ++ c ∷ []) []
  | opening ↦ tokenize_from (some c) true cur []
  | blank ↦ flush in_token cur (tokenize_from none false [] [])
  | plain ↦ tokenize_from none true (cur ++ c ∷ []) []
]
tokenize_from none in_token cur (c ∷ d ∷ s) = elim (classify c) [
  | escape ↦ tokenize_from none true (cur ++ d ∷ []) s
  | opening ↦ tokenize_from (some c) true cur (d ∷ s)
  | blank ↦ flush in_token cur (tokenize_from none false [] (d ∷ s))
  | plain ↦ tokenize_from none true (cur ++ c ∷ []) (d ∷ s)
]

pub tokenize_repl_line : Bytes → Option (List Bytes)
unfolding tokenize_from
tokenize_repl_line s = tokenize_from none false [] s
