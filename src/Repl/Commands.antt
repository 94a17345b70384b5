-- ===== src/Repl/Commands.antt =====
-- handle_repl_line of include/proxchunk/repl.hpp, and the loop run_repl of src/proxchunk.cpp. The file
-- system is std::filesystem's: an interface, with an error message where a call fails.
mod Tests
pub mod Guards
use proxchunk.Prelude.{
  ℕ, zero, suc, ◌+◌, ◌-◌, ◌*◌, ◌/◌, ◌%◌, ◌≤◌, ◌<◌, min, max, String, ◌≡◌, refl, sym, ap, ◌∙◌, subst,
  ◌≢◌, ◌↔◌, ◌⊎◌, inl, inr, Bool, true, false, not, ◌&&◌, ◌||◌, Option, none, some, List, [], ◌∷◌,
  ◌++◌, map, append-nil, append_assoc, arith, ltb, leb, ◌==◌, if◌then◌else◌, ltb→lt, lt→ltb, leb→le,
  ==_iff, Bool-cases, Option-cases, length, take, drop, concat, is_empty, length-append,
  take-append-drop, length-take, length-drop, drop-length-append, All, All-append, All-append_left,
  All-append_right, ℤ, pos, negsuc, sub_ℕ, Bytes, codes, bytes_eq, bytes_eq_iff, bytes_eq_refl,
  starts_with, contains_byte, contains, decimal, is_space, is_digit, digits_from, skip_space,
  strtol, atoi, IsDigit, digits_from-append, decimal_from-IsDigit, strtol-decimal,
}
use proxchunk.Daemon.{is_word}
use proxchunk.Repl.{tokenize_repl_line}

-- What symlink_status says: an error, a directory, or anything else.
pub data FileStatus : Type 0 where
  status_error : Bytes → FileStatus
  directory not_directory : FileStatus

-- The calls of std::filesystem, with `W` for what is on the disk. A message is there where the call
-- sets its error code.
pub record FileSystem (W : Type 0) : Type 0 where
  pub current_path : W → Option Bytes × Bytes
  pub set_current : Bytes → W → Option Bytes × W
  pub create_directory : Bytes → W → Option Bytes × W
  pub create_directories : Bytes → W → Option Bytes × W
  pub symlink_status : Bytes → W → FileStatus
  pub is_directory : Bytes → W → Bool
  pub is_empty_directory : Bytes → W → Bool
  pub remove : Bytes → W → (Bool × Option Bytes) × W

-- struct repl_result, by its kind.
pub data ReplResult : Type 0 where
  empty quit : ReplResult
  error info : Bytes → ReplResult
  run : List Bytes → ReplResult

abbrev has_message : Option Bytes → Bool
has_message none = false
has_message (some text) = true

abbrev message_of : Option Bytes → Bytes
message_of none = []
message_of (some text) = text

-- `mkdir: d: message`, and so on.
abbrev complaint : Bytes → Bytes → Bytes → Bytes
complaint cmd name text = cmd ++ (codes ": " ++ (name ++ (codes ": " ++ text)))

abbrev help_text : Bytes
help_text =
    codes "builtins: cd [dir]  pwd  mkdir [-p] dir  rm file  rmdir dir  exit\n"
    ++ codes "anything else is passed to proxchunk (try -h)"

-- The words behind `mkdir` that are not `-p`, and whether one is.
pub mkdir_words : List Bytes → Bool × List Bytes
mkdir_words [] = (false, [])
mkdir_words (t ∷ tok) =
    let (parents, dirs) = mkdir_words tok in
    if is_word t "-p" then (true, dirs) else (parents, t ∷ dirs)

abbrev pub first_or : Bytes → List Bytes → Bytes
first_or home [] = home
first_or home (d ∷ rest) = d

module _ {W : Type 0} where
  abbrev pub go_on : (ReplResult ⊎ Unit {0}) × W → (W → ReplResult × W) → ReplResult × W
  go_on (inl result, w) next = (result, w)
  go_on (inr _, w) next = next w

  pub remove_each : (Bytes → W → (ReplResult ⊎ Unit {0}) × W) → List Bytes → W → ReplResult × W
  remove_each remove_one [] w = (info [], w)
  remove_each remove_one (p ∷ ps) w = go_on (remove_one p w) (λ w'. remove_each remove_one ps w')

  -- The words behind a command, of which `rm` and `rmdir` want one.
  abbrev unless_missing : Bytes → List Bytes → ReplResult × W → W → ReplResult × W
  unless_missing cmd operands result w =
      if is_empty operands then (error (cmd ++ codes ": missing operand"), w) else result

  abbrev pub ran : List Bytes → List (List Bytes) × W → List (List Bytes) × W
  ran argv (more, w) = (argv ∷ more, w)

module _ {W : Type 0} (fs : FileSystem W) where
  abbrev pub pwd : W → ReplResult × W
  pwd w =
      let (ec, path) = fs.current_path w in
      (if has_message ec then error (message_of ec) else info path, w)

  abbrev pub cd : Bytes → W → ReplResult × W
  cd dest w =
      let (ec, w') = fs.set_current dest w in
      (
        if has_message ec
            then error (complaint (codes "cd") dest (message_of ec))
            else info (fs.current_path w').1,
        w',
      )

  abbrev make : Bool → Bytes → W → Option Bytes × W
  make parents d w = if parents then fs.create_directories d w else fs.create_directory d w

  -- The loop of `mkdir`: it ends at the first error.
  pub make_each : Bool → List Bytes → W → ReplResult × W
  make_each parents [] w = (info [], w)
  make_each parents (d ∷ dirs) w =
      let (ec, w') = make parents d w in
      let rest = make_each parents dirs w' in
      if has_message ec then (error (complaint (codes "mkdir") d (message_of ec)), w') else rest

  pub mkdir : List Bytes → W → ReplResult × W
  unfolding mkdir_words make_each
  mkdir tok w =
      let (parents, dirs) = mkdir_words tok in
      if is_empty dirs
      then (error (codes "mkdir: missing operand"), w)
      else make_each parents dirs w

  -- The body of the loop of `rm`: `inl` is its return.
  abbrev pub remove_file : Bytes → W → (ReplResult ⊎ Unit {0}) × W
  remove_file p w = elim (fs.symlink_status p w) [
    | status_error text ↦ (inl (error (complaint (codes "rm") p text)), w)
    | directory ↦ (inl (error (complaint (codes "rm") p (codes "is a directory (use rmdir)"))), w)
    | not_directory ↦
        let ((removed, ec), w') = fs.remove p w in
        (
          if not removed || has_message ec
              then inl (
                  error (
                    complaint (codes "rm") p
                      (if has_message ec then message_of ec else codes "failed")))
              else inr tt,
          w',
        )
  ]

  -- The body of the loop of `rmdir`.
  abbrev pub remove_dir : Bytes → W → (ReplResult ⊎ Unit {0}) × W
  remove_dir p w =
      if not (fs.is_directory p w)
      then (inl (error (complaint (codes "rmdir") p (codes "not a directory"))), w)
      else if not (fs.is_empty_directory p w)
      then (inl (error (complaint (codes "rmdir") p (codes "directory not empty"))), w)
      else (let ((removed, ec), w') = fs.remove p w in
          (
            if has_message ec
                then inl (error (complaint (codes "rmdir") p (message_of ec)))
                else inr tt,
            w',
          ))

  -- The commands, for what `repl_home_dir` returns.
  pub command : Bytes → Bytes → List Bytes → W → ReplResult × W
  unfolding mkdir remove_each
  command home cmd operands w =
      if is_word cmd "exit" || is_word cmd "quit"
      then (quit, w)
      else if is_word cmd "help"
      then (info help_text, w)
      else if is_word cmd "pwd"
      then pwd w
      else if is_word cmd "cd"
      then cd (first_or home operands) w
      else if is_word cmd "mkdir"
      then mkdir operands w
      else if is_word cmd "rm"
      then unless_missing cmd operands (remove_each remove_file operands w) w
      else if is_word cmd "rmdir"
      then unless_missing cmd operands (remove_each remove_dir operands w) w
      else (run (cmd ∷ operands), w)

  abbrev pub handle_words : Bytes → Option (List Bytes) → W → ReplResult × W
  handle_words home none w = (error (codes "unmatched quote"), w)
  handle_words home (some []) w = (empty, w)
  handle_words home (some (cmd ∷ operands)) w = command home cmd operands w

  pub handle_repl_line : Bytes → Bytes → W → ReplResult × W
  unfolding tokenize_repl_line command
  handle_repl_line home line w = handle_words home (tokenize_repl_line line) w

  -- `run_repl` on the lines of its input: the argument lists that it runs this program with, and the
  -- disk, which such a run may change (`exec`), at the end.
  pub run_repl : (List Bytes → W → W) → Bytes → List Bytes → W → List (List Bytes) × W
  unfolding handle_repl_line
  run_repl exec home [] w = ([], w)
  run_repl exec home (line ∷ lines) w =
      let (result, w') = handle_repl_line home line w in
      elim result [
        | quit ↦ ([], w')
        | run argv ↦ ran argv (run_repl exec home lines (exec argv w'))
        | empty ↦ run_repl exec home lines w'
        | error text ↦ run_repl exec home lines w'
        | info text ↦ run_repl exec home lines w'
      ]
