-- ===== src/Daemon/Loop/Stop.antt =====
-- Rounds of the poll loop: the leases of all connections together, and what the stop leaves.
use proxchunk.Prelude.{
  ℕ, zero, suc, ◌+◌, ◌≤◌, ◌≡◌, refl, ap, ◌⊎◌, inl, inr, Bool, true, false, not, ◌||◌, Option, some,
  List, if◌then◌else◌, [], ◌∷◌, ◌++◌, arith, Bool-cases, All, All-append, Bytes, codes, bytes_eq,
}
use proxchunk.Engine.Rows.{Floats, HasDistinctRows}
use proxchunk.Engine.{Engine}
use proxchunk.Ipc.{line, ipc_split}
use proxchunk.Daemon.{
  Handled, handle_line, handle_tokens, dispatch, Formats, Conn, release_all, drop_conn,
}
use proxchunk.Daemon.Leases.{held_at, leased_at, release_all-Keeps}
use proxchunk.Daemon.Loop.{
  Meeting, Served, after_read, after_command, refresh_all, Visit, visit_all, sweep, accept,
  drop_all, Server, Round, Poll, eintr, broken, polled, finish_round, round,
}
use proxchunk.Engine.Install.Carry.{IsTested}
use proxchunk.Daemon.Loop.Sound.{IsTidy, visit-Fine}

-- How many connections hold an address, with repetition.
abbrev all_held_at : Bytes → List Conn → ℕ
all_held_at a [] = 0
all_held_at a (c ∷ cs) = held_at a c.held + all_held_at a cs

module _ {D : Type 0} where
  -- No two rows have one address, and every leased row is held by some connection.
  abbrev NoLeak : List Conn → Engine D → ℕ → Bytes → Type 0
  NoLeak cs e others a = leased_at a e ≤ all_held_at a cs + others

  abbrev IsFresh : Visit D → Type 0
  IsFresh v = (n : ℕ) → All IsTested (v.meetings n).refreshed

  -- From the connections `cs` to the connections `cs'` no lease leaks.
  abbrev AllKeeps : List Conn → Engine D → List Conn → Engine D → Type 0
  AllKeeps cs e cs' e' =
      HasDistinctRows e.pool
      → HasDistinctRows e'.pool
        × ((a : Bytes) (others : ℕ) → NoLeak cs e others a → NoLeak cs' e' others a)

sweep-held :
    (a : Bytes) (cs : List Conn) → All IsTidy cs → all_held_at a (sweep cs) ≡ all_held_at a cs
unfolding sweep
sweep-held a [] v = refl
sweep-held a (c ∷ cs) v = elim v.0 [
  | inl is_open ↦ ground (arith, sweep-held a cs v.1)
  | inr nothing ↦
      let holds : held_at a c.held ≡ 0 = rw nothing refl in ground (arith, sweep-held a cs v.1)
]

sweep-open : (cs : List Conn) → All (λ (c : Conn). c.open_fd ≡ true) (sweep cs)
unfolding sweep
sweep-open [] = tt
sweep-open (c ∷ cs) = elim (Bool-cases c.open_fd) [
  | inl is_open ↦ simp (is_open) (refl, sweep-open cs)
  | inr closed ↦ simp (closed) (sweep-open cs)
]

accept-held : (a : Bytes) (n : ℕ) → all_held_at a (accept n) ≡ 0
unfolding accept
accept-held a zero = refl
accept-held a (suc n) = omega (arith, accept-held a n)

accept-IsTidy : (n : ℕ) → All IsTidy (accept n)
unfolding accept
accept-IsTidy zero = tt
accept-IsTidy (suc n) = (inl refl, accept-IsTidy n)

all_held_at-append :
    (a : Bytes) (cs ds : List Conn) → all_held_at a (cs ++ ds) ≡ all_held_at a cs + all_held_at a ds
all_held_at-append a [] ds = omega arith
all_held_at-append a (c ∷ cs) ds = omega (arith, all_held_at-append a cs ds)

open-IsTidy : (cs : List Conn) → All (λ (c : Conn). c.open_fd ≡ true) cs → All IsTidy cs
open-IsTidy [] v = tt
open-IsTidy (c ∷ cs) v = (inl v.0, open-IsTidy cs v.1)

goes_on : {A : Type 0} (b : Bool) (x y : A) → b ≡ true → (if not b then x else y) ≡ y
goes_on true x y h = refl
goes_on false x y h = absurd (ground arith)

module _ {D : Type 0} ⦃F : Floats D⦄ where
  visit_all-Keeps :
      (T : Formats D) (vs : List (Visit D)) (cs : List Conn) (e : Engine D)
      → All IsFresh vs
      → All IsTidy cs
      → (cs' : List Conn) × (e' : Engine D) × (stop : Bool) × ((visit_all T vs cs e
            ≡ some (cs', (e', stop)))
          × AllKeeps cs e cs' e'
          × All IsTidy cs')
  unfolding visit_all
  visit_all-Keeps T [] [] e fresh tidy = ([], e, false, (refl, (λ d. (d, λ a others h. h)), tt))
  visit_all-Keeps T (v ∷ vs) [] e fresh tidy =
      ([], e, false, (refl, (λ d. (d, λ a others h. h)), tt))
  visit_all-Keeps T [] (c ∷ cs) e fresh tidy =
      (c ∷ cs, e, false, (refl, (λ d. (d, λ a others h. h)), tidy))
  visit_all-Keeps T (v ∷ vs) (c ∷ cs) e fresh tidy =
      let (s, served, (keeps, tidy')) = visit-Fine T v c e fresh.0 tidy.0 in
      let (cs', e', stop, (visited, more, tidies)) =
        visit_all-Keeps T vs cs s.engine fresh.1 tidy.1 in
      (
        s.conn ∷ cs',
        e',
        s.want_stop || stop,
        (
          rw (served, visit_all, visited) refl,
          (λ d. (
            (more (keeps d).0).0,
            λ a others h.
                let first = (keeps d).1 a (all_held_at a cs + others) (omega (arith, h)) in
                omega (
                  arith,
                  (more (keeps d).0).1 a (held_at a s.conn.held + others) (omega (arith, first)),
                ),
          )),
          (tidy', tidies),
        ),
      )

  drop_all-Keeps :
      (cs : List Conn) (e : Engine D)
      → All (λ (c : Conn). c.open_fd ≡ true) cs
      → AllKeeps cs e [] (drop_all cs e)
  unfolding drop_all drop_conn
  drop_all-Keeps [] e v d = (d, λ a others h. h)
  drop_all-Keeps (c ∷ cs) e v d = rw v.0 (
      let first = release_all-Keeps e c.held d in
      let later = drop_all-Keeps cs (release_all e c.held) v.1 first.0 in
      (
        later.0,
        λ a others h.
            later.1 a others
              (omega (arith, first.1 a (all_held_at a cs + others) (omega (arith, h)))),
      ))

  abbrev pub IsRunning : Server (Engine D) → Type 0
  IsRunning s =
      All (λ (c : Conn). c.open_fd ≡ true) s.conns
      × HasDistinctRows s.engine.pool
      × ((a : Bytes) → leased_at a s.engine ≤ all_held_at a s.conns)

  -- After the stop no row is leased.
  abbrev pub IsStopped : Server (Engine D) → Type 0
  IsStopped s = (s.conns ≡ []) × (s.run ≡ false) × ((a : Bytes) → leased_at a s.engine ≡ 0)

  stop-IsStopped :
      (cs : List Conn) (e : Engine D)
      → IsRunning (record { conns = cs; engine = e; run = true })
      → IsStopped (record { conns = []; engine = drop_all cs e; run = false })
  stop-IsStopped cs e (opened, d, h) =
      let gone = drop_all-Keeps cs e opened d in
      (refl, refl, λ a. omega (arith, gone.1 a 0 (omega (arith, h a))))

  -- One round on a server whose connections are open, whose rows have distinct addresses and whose
  -- leased rows are all held by connections, whatever poll, recv, the commands and the other
  -- programs do, provided a refresh installs only unleased rows with distinct addresses: the round
  -- ends, and either the server runs on with the same said of it, or it has stopped, has no
  -- connection, and no row is leased.
  pub round-IsRunning :
      (T : Formats D) (r : Round (Visit D)) (s : Server (Engine D))
      → All IsFresh r.visits
      → IsRunning s
      → (s' : Server (Engine D)) × (round T r s ≡ some s')
        × ((s'.run ≡ true) × IsRunning s' ⊎ IsStopped s')
  unfolding round finish_round
  round-IsRunning T r s fresh (opened, d, h) =
      let (cs, e, stop, (visited, keeps, tidy)) =
        visit_all-Keeps T r.visits s.conns s.engine fresh (open-IsTidy s.conns opened) in
      let all = cs ++ accept r.arrived in
      let tidies = All-append IsTidy cs (accept r.arrived) tidy (accept-IsTidy r.arrived) in
      let running : IsRunning (record { conns = sweep all; engine = e; run = true }) = (
        sweep-open all,
        (keeps d).0,
        λ a. omega (
          arith,
          (keeps d).1 a 0 (omega (arith, h a)),
          sweep-held a all tidies,
          all_held_at-append a cs (accept r.arrived),
          accept-held a r.arrived,
        ),
      ) in
      rw visited (elim (Bool-cases (r.signalled || stop)) [
        | inl stops ↦ rw stops (_, refl, inr (stop-IsStopped (sweep all) e running))
        | inr goes_on ↦ rw goes_on (_, refl, inl (refl, running))
      ])

  -- What ends the loop: a poll that fails, a round with a signal, or one in which a connection's commands
  -- ask for the stop, now or once the rounds before it are made.
  abbrev pub Ends : (T : Formats D) → List (Poll (Visit D)) → Server (Engine D) → Type 0
  Ends T [] s = ⊥
  Ends T (eintr ∷ ps) s = Ends T ps s
  Ends T (broken ∷ ps) s = Unit {0}
  Ends T (polled r ∷ ps) s =
      (r.signalled ≡ true)
      ⊎ ((cs : List Conn) × (e : Engine D) × (visit_all T r.visits s.conns s.engine
            ≡ some (cs, (e, true))))
      ⊎ ((s' : Server (Engine D)) → round T r s ≡ some s' → Ends T ps s')

  -- The command that asks for it.
  after_read-stop :
      (T : Formats D) (buf : Bytes) (m : Meeting D) (c : Conn) (e : Engine D)
      (next : Conn → Engine D → Option (Served D))
      → c.greeted ≡ true
      → after_read T (some (line (codes "STOP"), buf)) m c e next
        ≡ some (record {
          conn = record c { buf = buf };
          engine = refresh_all e m.refreshed;
          want_stop = true;
        })
  unfolding after_read after_command handle_line handle_tokens dispatch ipc_split bytes_eq
  after_read-stop T buf m c e next greeted =
      ap (λ (r : Handled D). after_command r.result r.conn r.engine next)
        (goes_on c.greeted _ _ greeted)

  abbrev AreFresh : Poll (Visit D) → Type 0
  AreFresh eintr = Unit {0}
  AreFresh broken = Unit {0}
  AreFresh (polled r) = All IsFresh r.visits
