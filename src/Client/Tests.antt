-- ===== src/Client/Tests.antt =====
-- The theorem on a session, applied to the small pool.
use proxchunk.Prelude.{
  ℕ, ◌+◌, ◌-◌, ◌*◌, ◌/◌, ◌≡◌, refl, true, none, some, [], ◌∷◌, arith, contains_byte,
}
use proxchunk.Engine.{Engine, acquire, pick}
use proxchunk.Engine.Rows.{Proxy}
use proxchunk.Engine.Sample.{hundredths, url_a, row_a, row_b, sample}
use proxchunk.Daemon.{Formats}
use proxchunk.Client.{client_acquire}
use proxchunk.Client.Session.{daemon_socket, client_of, conn_of, outside_of, client_acquire-leases}

abbrev pub two_digits : Formats ℕ
two_digits = record {
  fixed4 = λ d. (b'0' + d / 100) ∷ [];
  stod = λ b. elim b [ [] ↦ none | c ∷ _ ↦ some ((c - b'0') * 100) ];
}

abbrev leased_a : Proxy ℕ
leased_a = record row_a { busy = true }

abbrev sample' : Engine ℕ
sample' = record sample { pool = leased_a ∷ row_b ∷ [] }

client_acquire-leases_example :
    client_acquire two_digits 0
      (daemon_socket two_digits (outside_of (λ asked. none)))
      0
      []
      (client_of [])
      (conn_of [] [], sample)
    ≡ (
      some (record { url = url_a; mbps = 900 }),
      (client_of (url_a ∷ []), (conn_of (url_a ∷ []) [], sample')),
    )
unfolding acquire pick contains_byte
client_acquire-leases_example =
    client_acquire-leases two_digits 0 900 (λ asked. none) 0 [] [] sample sample' leased_a refl
      (record { full = refl; no_space = refl }) (record { full = refl; no_space = refl })
      (omega arith) refl
