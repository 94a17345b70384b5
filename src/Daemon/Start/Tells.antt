-- ===== src/Daemon/Start/Tells.antt =====
-- What the exit code of daemonize_and_run says.
use proxchunk.Prelude.{
  ℕ, ◌≡◌, refl, sym, subst, ◌⊎◌, inl, inr, Bool, true, false, not, ◌||◌, Option, none, some, [],
  Bool-cases,
}
use proxchunk.Daemon.Start.{
  ServerCalls, Bound, listening, in_use, bind_error, ForkCalls, Startup, start_server,
  daemonize_and_run, bind_socket, serve, not_locked, parent_code,
}

-- The process in the shell at the start, with the two files there or not.
abbrev pub waiting : Bool → Bool → Startup
waiting sock pid = record { ready = true; told = []; socket_file = sock; pid_file = pid }

-- The server serves, with both files; or another one answers; or neither, and the socket file is as
-- it was.
abbrev pub Told : ServerCalls → Bool → ℕ × (Option ℕ × Startup) → Type 0
Told a sock (code, (r, s)) =
    ((code ≡ 0) × (r ≡ none) × (s.socket_file ≡ true) × (s.pid_file ≡ true))
    ⊎ ((code ≡ 0) × (r ≡ some 0) × (a.pings ≡ true) × (s.socket_file ≡ sock))
    ⊎ ((code ≡ 1) × (r ≡ some 1) × (s.socket_file ≡ sock))

serve-Told :
    (a : ServerCalls)
    → Told a false (
        parent_code
          (serve a (record { ready = true; told = []; socket_file = true; pid_file = true })))
serve-Told a = elim (Bool-cases a.signals) [
  | inr e ↦ rw e (inr (inr (refl, refl, refl)))
  | inl e ↦ elim (Bool-cases a.inits_curl) [
    | inr k ↦ rw (e, k) (inr (inr (refl, refl, refl)))
    | inl k ↦ rw (e, k) (inl (refl, refl, refl, refl))
  ]
]

not_locked-Told :
    (a : ServerCalls) (sock pid : Bool)
    → Told a sock (parent_code (not_locked a (waiting sock pid)))
not_locked-Told a sock pid = elim (Bool-cases a.pings) [
  | inl e ↦ rw e (inr (inl (refl, refl, refl, refl)))
  | inr e ↦ rw e (inr (inr (refl, refl, refl)))
]

bind_socket-Told :
    (a : ServerCalls) (b : Bound) (sock : Bool)
    → (b ≡ listening → sock ≡ false)
    → Told a sock (parent_code (bind_socket a b (waiting sock true)))
bind_socket-Told a listening sock free =
    subst (λ x. Told a x (parent_code (bind_socket a listening (waiting x true)))) (sym (free refl))
      (serve-Told a)
bind_socket-Told a in_use sock free = elim (Bool-cases a.pings) [
  | inl e ↦ rw e (inr (inl (refl, refl, refl, refl)))
  | inr e ↦ rw e (inr (inr (refl, refl, refl)))
]
bind_socket-Told a bind_error sock free = inr (inr (refl, refl, refl))

start_server-Told :
    (a : ServerCalls) (sock pid : Bool)
    → (a.binds ≡ listening → sock ≡ false)
    → Told a sock (parent_code (start_server a (waiting sock pid)))
unfolding start_server
start_server-Told a sock pid free = elim (Bool-cases a.makes_dir) [
  | inr e ↦ rw e (inr (inr (refl, refl, refl)))
  | inl e ↦ elim (Bool-cases a.locks_pid) [
    | inl k ↦ rw (e, k) (bind_socket-Told a a.binds sock free)
    | inr k ↦ rw (e, k) (not_locked-Told a sock a.leaves_pid)
  ]
]

-- The shell gets 0 where this server serves, with its socket and its pid file in place, or where another
-- one answered a PING, and 1 in all other cases, in which the server ends with 1 too; a server that does
-- not serve leaves the socket file as it was, since bind fails where there is one.
pub daemonize_and_run-Told :
    (f : ForkCalls) (a : ServerCalls) (sock pid : Bool)
    → (a.binds ≡ listening → sock ≡ false)
    → Told a sock (daemonize_and_run f a (waiting sock pid))
unfolding daemonize_and_run
daemonize_and_run-Told f a sock pid free = elim (Bool-cases (not f.pipes || not f.forks)) [
  | inl e ↦ rw e (inr (inr (refl, refl, refl)))
  | inr e ↦ elim (Bool-cases (not f.leads || not f.forks_again)) [
    | inl k ↦ rw (e, k) (inr (inr (refl, refl, refl)))
    | inr k ↦ rw (e, k) (start_server-Told a sock pid free)
  ]
]
