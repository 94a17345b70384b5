-- ===== src/Client/Calls/Tests.antt =====
-- The theorems on the other calls, applied to the small pool.
use proxchunk.Prelude.{
  ◌≡◌, refl, Bool, true, false, none, some, [], ◌∷◌, arith, if◌then◌else◌, codes, bytes_eq,
  starts_with, contains_byte, decimal,
}
use proxchunk.Engine.{live, busy, top_mbps}
use proxchunk.Engine.Sample.{hundredths, url_b, sample}
use proxchunk.Daemon.{drop_conn}
use proxchunk.Client.{Socket, Client}
use proxchunk.Client.Session.{daemon_socket, client_of, conn_of, outside_of}
use proxchunk.Client.Tests.{two_digits}
use proxchunk.Client.Calls.{destroy, connect_or_start}
use proxchunk.Client.Calls.Status.{cmd_status, listening_socket, cmd_status-live}
use proxchunk.Client.Calls.Together.{IsReleased, destroy-drop_conn}
use proxchunk.Client.Calls.Starting.{IsUp, connect_or_start-up}

abbrev url_b-IsReleased : IsReleased url_b
url_b-IsReleased = record {
  word = record { full = refl; no_space = unfold contains_byte in refl };
  sent = record { fits = omega arith; one_line = unfold contains_byte in refl };
}

destroy-drop_conn_example :
    destroy
      (daemon_socket two_digits (outside_of (λ asked. none)))
      (client_of (url_b ∷ []))
      (conn_of (url_b ∷ []) [], sample)
    ≡ (conn_of [] [], (drop_conn (conn_of (url_b ∷ []) []) sample).1)
destroy-drop_conn_example =
    destroy-drop_conn two_digits (outside_of (λ asked. none)) (url_b ∷ []) [] sample
      (url_b-IsReleased, tt) refl

cmd_status-live_example :
    cmd_status two_digits
      (listening_socket two_digits (outside_of (λ asked. none)))
      0
      (conn_of [] [], sample)
    ≡ ((0, codes "live=2 busy=1 top_mbps=9\n"), (conn_of [] [], sample))
unfolding live busy top_mbps decimal contains_byte
cmd_status-live_example =
    cmd_status-live two_digits (outside_of (λ asked. none)) 0 900 (conn_of [] []) sample
      (omega arith) (omega arith) (omega arith) (record { full = refl; no_space = refl }) refl

-- A daemon that answers once it is up; `true` is up.
abbrev sleeper : Socket Bool
sleeper = record {
  connect = λ w. (w, w);
  exchange = λ cmd w. (
    some (if bytes_eq cmd (codes "PING") then codes "OK pong" else codes "OK 1 proxchunkd 1.1"),
    w,
  );
}

sleeper-IsUp : IsUp sleeper (λ w. w ≡ true)
unfolding bytes_eq starts_with
sleeper-IsUp = record {
  connects = λ w up. (up, up);
  greets = λ w up. (codes "OK 1 proxchunkd 1.1", refl, refl, up);
  pongs = λ w up. refl;
}

abbrev stranger : Client
stranger = record { connected = false; has_path = false; held = [] }

connect_or_start-up_example :
    let r = connect_or_start sleeper (λ w. true) 5 stranger false in
    (r.0 ≡ true) × (r.1.0.connected ≡ true)
connect_or_start-up_example =
    connect_or_start-up sleeper (λ w. w ≡ true) sleeper-IsUp (λ w. true) 5 stranger false
      (λ w. refl) (omega arith)
