-- ===== src/Daemon/Control/Remove.antt =====
-- When proxchunkd removes its socket and its pid file.
use proxchunk.Prelude.{ℕ, ◌+◌, ◌≤◌, ◌≡◌, ◌⊎◌, Bool, true, false}
use proxchunk.Daemon.Control.{Files, Connect, unlink_dead}

-- One of the looks found the daemon gone.
abbrev SeenGone : ℕ → ℕ → (ℕ → Bool) → Type 0
SeenGone i steps gone = (k : ℕ) × (i ≤ k) × (k ≤ i + steps) × (gone k ≡ true)

-- `--stop` ends in one of four ways.
abbrev pub Stops : Bool → (ℕ → Bool) → Bool → Connect → Files → ℕ × Files → Type 0
Stops sent_stop gone lock_free c f r =
    ((sent_stop ≡ true)
      × SeenGone 0 300 gone
      × (r ≡ (0, record { socket_there = false; pid_there = false })))
    ⊎ ((sent_stop ≡ true) × (SeenGone 0 300 gone → ⊥) × (r ≡ (1, f)))
    ⊎ ((sent_stop ≡ false)
        × (lock_free ≡ true)
        × (r ≡ (0, record (unlink_dead c f) { pid_there = false })))
    ⊎ ((sent_stop ≡ false) × (lock_free ≡ false) × (r ≡ (1, f)))
