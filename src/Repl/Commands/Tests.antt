-- ===== src/Repl/Commands/Tests.antt =====
-- A disk with a file `f` and a directory `d` that has something in it.
use proxchunk.Prelude.{
  ◌≡◌, refl, inl, inr, Bool, true, false, ◌&&◌, none, List, [], ◌∷◌, if◌then◌else◌, Bool-cases,
  Bytes, codes, bytes_eq,
}
use proxchunk.Repl.Words.{written_line}
use proxchunk.Repl.Commands.{
  status_error, directory, not_directory, FileSystem, run, handle_repl_line, run_repl,
}
use proxchunk.Repl.Commands.Guards.{IsGuarded, run_repl-keeps, handle_repl_line-run}

-- Whether each of them is there.
abbrev Disk : Type 0
Disk = Bool × Bool

abbrev nothing_there : Bytes
nothing_there = codes "No such file or directory"

abbrev disk : FileSystem Disk
disk = record {
  current_path = λ w. (none, codes "/");
  set_current = λ d w. (none, w);
  create_directory = λ d w. (none, w);
  create_directories = λ d w. (none, w);
  symlink_status = λ p w.
      if bytes_eq p (codes "d")
      then (if w.1 then directory else status_error nothing_there)
      else if bytes_eq p (codes "f") && w.0
      then not_directory
      else status_error nothing_there;
  is_directory = λ p w. bytes_eq p (codes "d") && w.1;
  is_empty_directory = λ p w. false;
  remove = λ p w.
      if bytes_eq p (codes "d") then ((true, none), (w.0, false)) else ((true, none), (false, w.1));
}

-- The directory stays.
abbrev HasDir : Disk → Type 0
HasDir w = w.1 ≡ true

disk-IsGuarded : IsGuarded disk HasDir
disk-IsGuarded = record {
  at_cd = λ d w h. h;
  at_mkdir = λ d w h. h;
  at_mkdirs = λ d w h. h;
  at_rm = λ p w file h. elim (Bool-cases (bytes_eq p (codes "d"))) [
    | inl same ↦ absurd (is_dir p w same h file)
    | inr other ↦ rw other h
  ];
  at_rmdir = λ p w dir bare h. absurd (cc bare);
}
  where
    is_dir :
        (p : Bytes) (w : Disk)
        → bytes_eq p (codes "d") ≡ true
        → HasDir w
        → disk.symlink_status p w ≡ not_directory
        → ⊥
    is_dir p w same h = rw (same, h) (λ e. cc e)

abbrev typed : List Bytes
typed =
    codes "rm f" ∷ codes "rm d" ∷ codes "rmdir d" ∷ codes "-c 2 'http://x/a b'" ∷ codes "exit" ∷ []

run_repl-keeps_example : HasDir (run_repl disk (λ argv w. w) (codes "/") typed (true, true)).1
run_repl-keeps_example =
    run_repl-keeps disk HasDir disk-IsGuarded (λ argv w. w) (codes "/") typed (true, true)
      (λ argv w h. h) refl

typed_run :
    run_repl disk (λ argv w. w) (codes "/") typed (true, true)
    ≡ ((codes "-c" ∷ codes "2" ∷ codes "http://x/a b" ∷ []) ∷ [], (false, true))
unfolding run_repl bytes_eq
typed_run = refl

handle_repl_line-run_example :
    handle_repl_line disk (codes "/") (written_line (codes "a b" ∷ codes "c" ∷ [])) (true, true)
    ≡ (run (codes "a b" ∷ codes "c" ∷ []), (true, true))
handle_repl_line-run_example =
    handle_repl_line-run disk (codes "/") (codes "a b") (codes "c" ∷ []) (true, true)
      (unfold bytes_eq in refl)
