-- ===== src/Repl/Commands/Guards.antt =====
-- What the console's commands can do to the disk.
use proxchunk.Prelude.{
  ◌≡◌, refl, ap, ◌∙◌, ◌⊎◌, inl, inr, Bool, true, false, ◌||◌, Option, none, some, List, [], ◌∷◌,
  arith, if◌then◌else◌, Bool-cases, is_empty, Bytes,
}
use proxchunk.Daemon.{is_word}
use proxchunk.Repl.{tokenize_repl_line}
use proxchunk.Repl.Words.{written_line, tokenize_repl_line-written_line}
use proxchunk.Repl.Commands.{
  FileStatus, status_error, directory, not_directory, FileSystem, ReplResult, empty, quit, error,
  info, run, make_each, mkdir_words, mkdir, first_or, remove_file, remove_dir, go_on, remove_each,
  command, handle_words, handle_repl_line, ran, run_repl,
}

module _ {W : Type 0} (fs : FileSystem W) where
  -- A property of the disk that survives a change of directory, new directories, and the removal of
  -- what is not a directory or is an empty one.
  pub record IsGuarded (P : W → Type 0) : Type 0 where
    pub at_cd : (d : Bytes) (w : W) → P w → P (fs.set_current d w).1
    pub at_mkdir : (d : Bytes) (w : W) → P w → P (fs.create_directory d w).1
    pub at_mkdirs : (d : Bytes) (w : W) → P w → P (fs.create_directories d w).1
    pub at_rm :
        (p : Bytes) (w : W) → fs.symlink_status p w ≡ not_directory → P w → P (fs.remove p w).1
    pub at_rmdir :
        (p : Bytes) (w : W)
        → fs.is_directory p w ≡ true
        → fs.is_empty_directory p w ≡ true
        → P w
        → P (fs.remove p w).1

  module _ (P : W → Type 0) (g : IsGuarded P) where
    -- One of two results.
    either : {A : Type 0} (b : Bool) (x y : A × W) → P x.1 → P y.1 → P (if b then x else y).1
    either true x y h k = h
    either false x y h k = k

    make_each-keeps :
        (parents : Bool) (dirs : List Bytes) (w : W) → P w → P (make_each fs parents dirs w).1
    unfolding make_each
    make_each-keeps parents [] w h = h
    make_each-keeps true (d ∷ dirs) w h =
        let made = g.at_mkdirs d w h in either _ _ _ made (make_each-keeps true dirs _ made)
    make_each-keeps false (d ∷ dirs) w h =
        let made = g.at_mkdir d w h in either _ _ _ made (make_each-keeps false dirs _ made)

    remove_file-keeps : (p : Bytes) (w : W) → P w → P (remove_file fs p w).1
    remove_file-keeps p w h = go (fs.symlink_status p w) refl
      where
        go : (status : FileStatus) → fs.symlink_status p w ≡ status → P (remove_file fs p w).1
        go (status_error text) e = rw (e, remove_file) h
        go directory e = rw (e, remove_file) h
        go not_directory e = rw (e, remove_file) (g.at_rm p w e h)

    remove_dir-keeps : (p : Bytes) (w : W) → P w → P (remove_dir fs p w).1
    remove_dir-keeps p w h = elim (Bool-cases (fs.is_directory p w)) [
      | inr other ↦ rw other h
      | inl dir ↦ elim (Bool-cases (fs.is_empty_directory p w)) [
        | inr full ↦ rw (dir, full) h
        | inl bare ↦ rw (dir, bare) (g.at_rmdir p w dir bare h)
      ]
    ]

    go_on-keeps :
        (r : (ReplResult ⊎ Unit {0}) × W) (next : W → ReplResult × W)
        → P r.1
        → ((w : W) → P w → P (next w).1)
        → P (go_on r next).1
    go_on-keeps (inl result, w) next h k = h
    go_on-keeps (inr _, w) next h k = k w h

    remove_each-keeps :
        (remove_one : Bytes → W → (ReplResult ⊎ Unit {0}) × W) (ps : List Bytes) (w : W)
        → ((p : Bytes) (w : W) → P w → P (remove_one p w).1)
        → P w
        → P (remove_each remove_one ps w).1
    unfolding remove_each
    remove_each-keeps remove_one [] w k h = h
    remove_each-keeps remove_one (p ∷ ps) w k h =
        go_on-keeps (remove_one p w) _ (k p w h) (λ w' h'. remove_each-keeps remove_one ps w' k h')

    mkdir-keeps : (tok : List Bytes) (w : W) → P w → P (mkdir fs tok w).1
    unfolding mkdir
    mkdir-keeps tok w h =
        let (parents, dirs) = mkdir_words tok in
        either (is_empty dirs) _ _ h (make_each-keeps parents dirs w h)

    command-keeps :
        (home cmd : Bytes) (operands : List Bytes) (w : W)
        → P w
        → P (command fs home cmd operands w).1
    unfolding command
    command-keeps home cmd operands w h = either (is_word cmd "exit" || is_word cmd "quit") _ _ h (
        either (is_word cmd "help") _ _ h (
          either (is_word cmd "pwd") _ _ h (
            either (is_word cmd "cd") _ _ (g.at_cd (first_or home operands) w h) (
              either (is_word cmd "mkdir") _ _ (mkdir-keeps operands w h) (
                either (is_word cmd "rm") _ _
                  (either (is_empty operands) _ _ h
                    (remove_each-keeps (remove_file fs) operands w remove_file-keeps h))
                  (either (is_word cmd "rmdir") _ _
                    (either (is_empty operands) _ _ h
                      (remove_each-keeps (remove_dir fs) operands w remove_dir-keeps h))
                    h))))))

    handle_repl_line-keeps :
        (home line : Bytes) (w : W) → P w → P (handle_repl_line fs home line w).1
    unfolding handle_repl_line
    handle_repl_line-keeps home line w h = go (tokenize_repl_line line)
      where
        go : (o : Option (List Bytes)) → P (handle_words fs home o w).1
        go none = h
        go (some []) = h
        go (some (cmd ∷ operands)) = command-keeps home cmd operands w h

    -- Whatever is typed at the console, what a change of directory, new directories, the removal of
    -- non-directories and of empty directories, and the runs of the program leave true of the disk
    -- stays true: `rm` removes no directory, and `rmdir` none that has something in it.
    pub run_repl-keeps :
        (exec : List Bytes → W → W) (home : Bytes) (lines : List Bytes) (w : W)
        → ((argv : List Bytes) (w : W) → P w → P (exec argv w))
        → P w
        → P (run_repl fs exec home lines w).1
    unfolding run_repl
    run_repl-keeps exec home [] w k h = h
    run_repl-keeps exec home (line ∷ lines) w k h =
        step (handle_repl_line fs home line w) (handle_repl_line-keeps home line w h)
          (λ w' h'. run_repl-keeps exec home lines w' k h')
      where
        step :
            (r : ReplResult × W)
            → P r.1
            → ((w : W) → P w → P (run_repl fs exec home lines w).1)
            → let after : List (List Bytes) × W = elim r.0 [
              | quit ↦ ([], r.1)
              | run argv ↦ ran argv (run_repl fs exec home lines (exec argv r.1))
              | empty ↦ run_repl fs exec home lines r.1
              | error text ↦ run_repl fs exec home lines r.1
              | info text ↦ run_repl fs exec home lines r.1
            ] in
              P after.1
        step (quit, w) h next = h
        step (run argv, w) h next = next (exec argv w) (k argv w h)
        step (empty, w) h next = next w h
        step (error text, w) h next = next w h
        step (info text, w) h next = next w h

-- The commands of the console itself.
abbrev is_builtin : Bytes → Bool
is_builtin cmd =
    (is_word cmd "exit" || is_word cmd "quit")
    || is_word cmd "help"
    || is_word cmd "pwd"
    || is_word cmd "cd"
    || is_word cmd "mkdir"
    || is_word cmd "rm"
    || is_word cmd "rmdir"

-- Any words that are quoted or escaped as need be, the first of them none of the console's commands,
-- are handed to the program as they are, and the disk is left alone.
pub handle_repl_line-run :
    {W : Type 0} (fs : FileSystem W) (home cmd : Bytes) (operands : List Bytes) (w : W)
    → is_builtin cmd ≡ false
    → handle_repl_line fs home (written_line (cmd ∷ operands)) w ≡ (run (cmd ∷ operands), w)
unfolding handle_repl_line
handle_repl_line-run fs home cmd operands w h =
    ap (λ o. handle_words fs home o w) (tokenize_repl_line-written_line (cmd ∷ operands)) ∙ passed
  where
    passed : command fs home cmd operands w ≡ (run (cmd ∷ operands), w)
    passed = unfold command in ground (arith, h)
