-- ===== src/Daemon/Tests.antt =====
-- The theorems on the daemon, at a session of two connections.
use proxchunk.Prelude.{
  ℕ, ◌≡◌, refl, ◌⊎◌, inl, true, false, none, some, [], ◌∷◌, arith, if◌then◌else◌, is_empty, All,
  List, Bytes, codes, decimal,
}
use proxchunk.Ipc.{received, would_block, ipc_split}
use proxchunk.Engine.{Engine}
use proxchunk.Engine.Sample.{hundredths, url_b, sample, pool_ab-HasDistinctRows}
use proxchunk.Daemon.{Formats, Conn, Outside, handle_line}
use proxchunk.Daemon.Leases.{Keeps}
use proxchunk.Daemon.Accounts.{Follows, handle_line-Follows}
use proxchunk.Daemon.Protocol.{Greets, handle_line-Greets}
use proxchunk.Daemon.Loop.{Visit, visit, Server, Round, Poll, eintr, polled, round, new_conn}
use proxchunk.Engine.Install.Carry.{IsTested}
use proxchunk.Daemon.Loop.Sound.{Fine, visit-Fine}
use proxchunk.Daemon.Loop.Stop.{IsRunning, IsStopped, round-IsRunning}

abbrev formats : Formats ℕ
formats = record { fixed4 = decimal; stod = λ b. if is_empty b then none else some 0 }

abbrev outside : Outside ℕ
outside = record { probe = λ asked. none; reply_sent = true }

-- A greeted connection that holds the leased row, with half a command in its buffer.
abbrev holder : Conn
holder = record { open_fd = true; buf = codes "ACQ"; held = url_b ∷ []; greeted = true }

-- A RELEASE of the leased row.
handle_line-Follows_example :
    let r = handle_line formats outside false (codes "RELEASE http://b:1 ok 1") holder sample in
    ((a : Bytes) → Follows (ipc_split (codes "RELEASE http://b:1 ok 1")) holder sample r a)
    × Keeps holder.held sample r.conn.held r.engine
    × (r.conn.open_fd ≡ holder.open_fd)
    × (r.conn.buf ≡ holder.buf)
handle_line-Follows_example =
    handle_line-Follows formats outside false (codes "RELEASE http://b:1 ok 1") holder sample
      pool_ab-HasDistinctRows

handle_line-Greets_example :
    let r = handle_line formats outside false (codes "HELLO 1") new_conn sample in
    (r.engine ≡ sample) × Greets (ipc_split (codes "HELLO 1")) new_conn r
handle_line-Greets_example =
    handle_line-Greets formats outside false (codes "HELLO 1") new_conn sample refl

abbrev lines : Visit ℕ
lines = record {
  pollerr = false;
  pollin = true;
  pollhup = false;
  reads = received (codes "UIRE\nRELEASE http://b:1 ok 1\n") ∷ would_block ∷ [];
  meetings = λ n. record { refreshed = []; outside = outside };
}

lines-IsFresh : (n : ℕ) → All IsTested (lines.meetings n).refreshed
lines-IsFresh n = tt

visit-Fine_example : Fine holder sample (visit formats lines holder sample)
visit-Fine_example = visit-Fine formats lines holder sample lines-IsFresh (inl refl)

abbrev server : Server (Engine ℕ)
server = record { conns = holder ∷ new_conn ∷ []; engine = sample; run = true }

server-IsRunning : IsRunning server
server-IsRunning = ((refl, (refl, tt)), pool_ab-HasDistinctRows, λ a. ground arith)

abbrev one_round : Round (Visit ℕ)
one_round = record { signalled = false; arrived = 1; visits = lines ∷ lines ∷ [] }

round-IsRunning_example :
    (s' : Server (Engine ℕ)) × (round formats one_round server ≡ some s')
    × ((s'.run ≡ true) × IsRunning s' ⊎ IsStopped s')
round-IsRunning_example =
    round-IsRunning formats one_round server (lines-IsFresh, (lines-IsFresh, tt)) server-IsRunning

-- EINTR, a round, and one with a signal.
abbrev until_signal : List (Poll (Visit ℕ))
until_signal = eintr ∷ polled one_round ∷ polled (record one_round { signalled = true }) ∷ []
