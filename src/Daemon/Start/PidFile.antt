-- ===== src/Daemon/Start/PidFile.antt =====
-- The pid file is read back as the pid that the server writes.
use proxchunk.Prelude.{
  ℕ, ◌%◌, ◌≤◌, ◌<◌, ◌≡◌, refl, ap, ◌∙◌, true, false, some, List, [], ◌∷◌, arith, ltb, ◌==◌, length,
  take, drop, take-append-drop, length-drop, pos, Bytes, strtol-decimal_line,
}
use proxchunk.Daemon.Start.{
  and_then, WriteEvent, interrupted, write_error, wrote, write_all, pid_text, lock_and_write_pid,
  read_pidfile,
}

-- Every answer is some bytes taken.
abbrev Takes : List WriteEvent → Type 0
Takes [] = Unit {0}
Takes (interrupted ∷ es) = ⊥
Takes (write_error ∷ es) = ⊥
Takes (wrote n ∷ es) = (1 ≤ n) × Takes es

write_all-whole :
    (s : Bytes) (es : List WriteEvent)
    → length s ≤ length es
    → Takes es
    → write_all s es ≡ (some true, s)
unfolding write_all
write_all-whole [] [] h k = refl
write_all-whole [] (e ∷ es) h k = refl
write_all-whole (c ∷ s) [] h k = absurd (omega (arith, h))
write_all-whole (c ∷ s) (interrupted ∷ es) h k = absurd k
write_all-whole (c ∷ s) (write_error ∷ es) h k = absurd k
write_all-whole (c ∷ s) (wrote n ∷ es) h (some_taken, k) =
    let rest =
      write_all-whole (drop n (c ∷ s)) es (ground (arith, length-drop n (c ∷ s), h, some_taken))
        k in
    ap (and_then (take n (c ∷ s))) rest ∙ ap (λ t. (some true, t)) (take-append-drop n (c ∷ s))

read_pidfile-pid_text :
    (pid : ℕ) → 0 < pid → pid < 2147483648 → read_pidfile (some (pid_text pid)) ≡ pos pid
unfolding read_pidfile
read_pidfile-pid_text pid positive fits =
    let small : ltb 9223372036854775807 pid ≡ false = ground (arith, fits) in
    let full : (pid == 0) ≡ false = ground (arith, positive) in
    let same : pid % 4294967296 ≡ pid = omega (arith, fits) in
    let low : ltb pid 2147483648 ≡ true = ground (arith, fits) in
    rw (strtol-decimal_line pid, read_pidfile, small, full, same, low) refl

-- A server that can open, lock, truncate and write its pid file, however few bytes each write takes, is
-- found by its pid: what read_pidfile returns is the pid that was written, if it is positive and fits
-- into a pid_t, whatever was in the file before.
pub read_pidfile-lock_and_write_pid :
    (es : List WriteEvent) (pid : ℕ) (file : Bytes)
    → 0 < pid
    → pid < 2147483648
    → length (pid_text pid) ≤ length es
    → Takes es
    → let (r, file') =
        lock_and_write_pid
          (record { opens = true; locks = true; truncates = true; seeks = true; writes = es })
          pid
          file in
      (r ≡ some true) × (read_pidfile (some file') ≡ pos pid)
unfolding lock_and_write_pid
read_pidfile-lock_and_write_pid es pid file positive fits enough takes =
    rw (write_all-whole (pid_text pid) es enough takes)
      (refl, read_pidfile-pid_text pid positive fits)
