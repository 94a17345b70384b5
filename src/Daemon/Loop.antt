-- ===== src/Daemon/Loop.antt =====
-- run_server of src/proxchunkd.cpp: one round of the poll loop, and the orderly stop.
pub mod Sound
pub mod Stop
use proxchunk.Prelude.{
  ℕ, zero, suc, ◌+◌, Bool, true, false, not, ◌&&◌, ◌||◌, Option, none, some, List, [], ◌∷◌, ◌++◌,
  if◌then◌else◌, length, Bytes,
}
use proxchunk.Ipc.{
  ReadEvent, received, ReadResult, line, again, eof, error, overflow, ipc_read_line,
}
use proxchunk.Engine.Rows.{Floats, Proxy}
use proxchunk.Engine.Install.{install_tested}
use proxchunk.Engine.{Engine}
use proxchunk.Daemon.{
  Formats, Conn, CmdResult, ok, close, stop_daemon, Outside, handle_line, drop_conn,
}

-- The poll flags of a connection, what recv will meet on it, and what its commands will meet.
-- `refreshed` are the pools that the engine's own thread installs before a command.
pub record Meeting (D : Type 0) : Type 0 where
  pub refreshed : List (List (Proxy D))
  pub outside : Outside D

pub record Visit (D : Type 0) : Type 0 where
  pub pollerr : Bool
  pub pollin : Bool
  pub pollhup : Bool
  pub reads : List ReadEvent
  pub meetings : ℕ → Meeting D

pub record Served (D : Type 0) : Type 0 where
  pub conn : Conn
  pub engine : Engine D
  pub want_stop : Bool

pub received_length : List ReadEvent → ℕ
received_length [] = 0
received_length (received b ∷ es) = length b + received_length es
received_length (e ∷ es) = received_length es

-- `remove_if` of the connections without a descriptor.
pub sweep : List Conn → List Conn
sweep [] = []
sweep (c ∷ cs) = if c.open_fd then c ∷ sweep cs else sweep cs

abbrev pub new_conn : Conn
new_conn = record { open_fd = true; buf = []; held = []; greeted = false }

pub accept : ℕ → List Conn
accept zero = []
accept (suc n) = new_conn ∷ accept n

pub record Server (E : Type 0) : Type 0 where
  pub conns : List Conn
  pub engine : E
  pub run : Bool

-- One round: what poll reports, `arrived` connections, and whether a signal is pending.
pub record Round (V : Type 0) : Type 0 where
  pub signalled : Bool
  pub arrived : ℕ
  pub visits : List V

-- What `poll` answers: EINTR, another error, or a round.
pub data Poll (V : Type 0) : Type 0 where
  eintr broken : Poll V
  polled : Round V → Poll V

module _ {D : Type 0} ⦃F : Floats D⦄ where
  pub refresh_all : Engine D → List (List (Proxy D)) → Engine D
  refresh_all e [] = e
  refresh_all e (tested ∷ more) = refresh_all (install_tested e tested) more

  abbrev pub dropped : Conn → Engine D → Served D
  dropped c e = let (c', e') = drop_conn c e in record { conn = c'; engine = e'; want_stop = false }

  abbrev pub kept : Conn → Engine D → Served D
  kept c e = record { conn = c; engine = e; want_stop = false }

  abbrev pub stopped : Conn → Engine D → Served D
  stopped c e = record { conn = c; engine = e; want_stop = true }

  -- The loop's body behind a command: what its result asks for.
  pub after_command :
      CmdResult → Conn → Engine D → (Conn → Engine D → Option (Served D)) → Option (Served D)
  after_command ok c e next = next c e
  after_command close c e next = some (dropped c e)
  after_command stop_daemon c e next = some (stopped c e)

  abbrev beside :
      Served D → Option (List Conn × (Engine D × Bool)) → Option (List Conn × (Engine D × Bool))
  beside s none = none
  beside s (some (cs, (e, stop))) = some (s.conn ∷ cs, (e, s.want_stop || stop))

  -- `graceful_stop`: every connection is dropped, and the list is cleared.
  pub drop_all : List Conn → Engine D → Engine D
  unfolding drop_conn
  drop_all [] e = e
  drop_all (c ∷ cs) e = drop_all cs (if c.open_fd then (drop_conn c e).1 else e)

  pub finish_round : Bool → Option (List Conn × (Engine D × Bool)) → Option (Server (Engine D))
  unfolding sweep drop_all
  finish_round signalled none = none
  finish_round signalled (some (cs, (e, stop))) =
      if signalled || stop
      then some (record { conns = []; engine = drop_all (sweep cs) e; run = false })
      else some (record { conns = sweep cs; engine = e; run = true })

  abbrev pub with_new :
      List Conn → Option (List Conn × (Engine D × Bool)) → Option (List Conn × (Engine D × Bool))
  with_new new none = none
  with_new new (some (cs, rest)) = some (cs ++ new, rest)

module _ {D : Type 0} ⦃F : Floats D⦄ (T : Formats D) where
  -- Reads that are used up (`none`) stand for EAGAIN, which leaves the buffer as it is.
  pub after_read :
      Option (ReadResult × Bytes)
      → Meeting D
      → Conn
      → Engine D
      → (Conn → Engine D → Option (Served D))
      → Option (Served D)
  unfolding after_command
  after_read none m c e next = some (kept c e)
  after_read (some (again, buf)) m c e next = some (kept (record c { buf = buf }) e)
  after_read (some (eof, buf)) m c e next = some (dropped (record c { buf = buf }) e)
  after_read (some (error, buf)) m c e next = some (dropped (record c { buf = buf }) e)
  after_read (some (overflow, buf)) m c e next = some (dropped (record c { buf = buf }) e)
  after_read (some (line text, buf)) m c e next =
      let r =
        handle_line T m.outside false text (record c { buf = buf }) (refresh_all e m.refreshed) in
      after_command r.result r.conn r.engine next

  -- `for (;;)` over the lines of one connection; `none` where the fuel does not reach. The daemon is
  -- not stopping while it serves.
  pub serve_lines : ℕ → List ReadEvent → (ℕ → Meeting D) → Conn → Engine D → Option (Served D)
  unfolding after_read
  serve_lines zero es meets c e = none
  serve_lines (suc fuel) es meets c e =
      let (got, es') = ipc_read_line c.open_fd false c.buf es in
      after_read got (meets 0) c e (λ c' e'. serve_lines fuel es' (λ n. meets (suc n)) c' e')

  -- A connection after poll. Each line takes at least a byte of the buffer or of what is received.
  pub visit : Visit D → Conn → Engine D → Option (Served D)
  unfolding serve_lines received_length
  visit v c e =
      if not c.open_fd
      then some (kept c e)
      else if v.pollerr
      then some (dropped c e)
      else if not v.pollin && v.pollhup
      then some (dropped c e)
      else if not v.pollin
      then some (kept c e)
      else serve_lines (suc (length c.buf + received_length v.reads)) v.reads v.meetings c e

  -- The loop over the connections that were polled, each with its visit.
  pub visit_all : List (Visit D) → List Conn → Engine D → Option (List Conn × (Engine D × Bool))
  unfolding visit
  visit_all vs [] e = some ([], (e, false))
  visit_all [] (c ∷ cs) e = some (c ∷ cs, (e, false))
  visit_all (v ∷ vs) (c ∷ cs) e = elim (visit v c e) [
    | none ↦ none
    | some s ↦ beside s (visit_all vs cs s.engine)
  ]

  -- The body of `while (run)` behind a poll that does not fail. New connections stand behind the
  -- polled ones, and are visited from the next round on; a connection without a visit is quiet.
  pub round : Round (Visit D) → Server (Engine D) → Option (Server (Engine D))
  unfolding visit_all finish_round accept
  round r s =
      finish_round r.signalled (with_new (accept r.arrived) (visit_all r.visits s.conns s.engine))

  abbrev last_stop : Server (Engine D) → Server (Engine D)
  last_stop s =
      if s.run then record { conns = []; engine = drop_all s.conns s.engine; run = false } else s

  -- The loop as far as the answers of `poll` go. A poll that fails breaks it, and the stop that follows
  -- the loop is made unless a round has made it.
  pub rounds : List (Poll (Visit D)) → Server (Engine D) → Option (Server (Engine D))
  unfolding round drop_all
  rounds [] s = some s
  rounds (eintr ∷ ps) s = if not s.run then some s else rounds ps s
  rounds (broken ∷ ps) s = some (last_stop s)
  rounds (polled r ∷ ps) s =
      if not s.run then some s else elim (round r s) [ none ↦ none | some s' ↦ rounds ps s' ]
