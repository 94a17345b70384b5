-- ===== src/Client/Calls/Starting.antt =====
-- connect_or_start brings a daemon up.
use proxchunk.Prelude.{
  ℕ, zero, suc, ◌≤◌, ◌≡◌, refl, inl, inr, true, false, Option, none, some, arith, Bool-cases, Bytes,
  codes, bytes_eq_iff, starts_with,
}
use proxchunk.Client.{Socket, Client, hello}
use proxchunk.Client.Calls.{answers, pinged, start_rounds, connect_or_start}

-- A daemon is there: a connection comes about, and it greets and answers a PING.
pub record IsUp {W : Type 0} (S : Socket W) (Up : W → Type 0) : Type 0 where
  pub connects : (w : W) → Up w → ((S.connect w).0 ≡ true) × Up (S.connect w).1
  pub greets :
      (w : W)
      → Up w
      → (text : Bytes) × ((S.exchange (codes "HELLO 1") w).0 ≡ some text)
        × (starts_with (codes "OK 1") text ≡ true)
        × Up (S.exchange (codes "HELLO 1") w).1
  pub pongs : (w : W) → Up w → (S.exchange (codes "PING") w).0 ≡ some (codes "OK pong")

module _ {W : Type 0} (S : Socket W) (Up : W → Type 0) (u : IsUp S Up) where
  answers-up : (c : Client) (w : W) → Up w → (answers S c w).0 ≡ true
  unfolding answers hello
  answers-up c w up =
      let (there, up') = u.connects w up in
      let w' = (S.connect w).1 in
      let (text, greeting, fits, up'') = u.greets w' up' in
      let w'' = (S.exchange (codes "HELLO 1") w').1 in
      rw (there, greeting, answers, fits) (pong (S.exchange (codes "PING") w'') (u.pongs w'' up''))
    where
      is_pong :
          (reply : Option Bytes)
          → reply ≡ some (codes "OK pong")
          → (w : W) → (pinged S (reply, w)).0 ≡ true
      is_pong none h w = cc h
      is_pong (some reply) h w = (bytes_eq_iff reply (codes "OK pong")).1 (cc h)

      pong : (r : Option Bytes × W) → r.0 ≡ some (codes "OK pong") → (pinged S r).0 ≡ true
      pong (reply, w) h = is_pong reply h w

  start_rounds-up :
      (spawn : W → W) (rounds spawns : ℕ) (c : Client) (w : W)
      → Up w
      → let r = start_rounds S spawn (suc rounds) spawns c w in
        (r.0 ≡ true) × (r.1.0.connected ≡ true)
  unfolding start_rounds
  start_rounds-up spawn rounds spawns c w up = rw (answers-up c w up) (refl, refl)

  -- Where a daemon that is spawned comes up, two rounds before the deadline are enough for
  -- connect_or_start: it returns true with an open connection, whether or not one was there before.
  pub connect_or_start-up :
      (spawn : W → W) (rounds : ℕ) (c : Client) (w : W)
      → ((w : W) → Up (spawn w))
      → 2 ≤ rounds
      → let r = connect_or_start S spawn rounds c w in (r.0 ≡ true) × (r.1.0.connected ≡ true)
  unfolding connect_or_start
  connect_or_start-up spawn zero c w ups enough = absurd (omega (arith, enough))
  connect_or_start-up spawn (suc zero) c w ups enough = absurd (omega (arith, enough))
  connect_or_start-up spawn (suc (suc rounds)) c w ups enough =
      elim (Bool-cases (answers S (record c { has_path = true }) w).0) [
        | inl there ↦ rw (there, connect_or_start, start_rounds) (refl, refl)
        | inr away ↦
            rw (away, connect_or_start, start_rounds)
              (start_rounds-up spawn rounds 1 (record c { has_path = true; connected = false }) _
                (ups _))
      ]
