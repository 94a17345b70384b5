-- ===== src/Client.antt =====
-- ProxyClient of src/proxy_ipc.cpp. The mutex is held for each call, so a call is one function of the
-- client's state and of the world behind its socket.
pub mod Calls
pub mod Retry
pub mod Session
mod Tests
use proxchunk.Prelude.{
  ℕ, zero, suc, ◌-◌, ◌⊎◌, inl, inr, Bool, true, false, not, Option, none, some, List, [], ◌∷◌, ◌++◌,
  ltb, if◌then◌else◌, length, is_empty, Bytes, codes, bytes_eq, starts_with, contains,
}
use proxchunk.Ipc.{k_ipc_max_line, ipc_split}
use proxchunk.Daemon.{Formats, erase_one_held, is_word}

-- The socket: whether a connection comes about, and the write of one line on it with the line that is
-- read in answer, `none` where either fails.
pub record Socket (W : Type 0) : Type 0 where
  pub connect : W → Bool × W
  pub exchange : Bytes → W → Option Bytes × W

pub record Client : Type 0 where
  pub connected : Bool
  pub has_path : Bool
  pub held : List Bytes

pub record Acquired (D : Type 0) : Type 0 where
  pub url : Bytes
  pub mbps : D

module _ {W : Type 0} (S : Socket W) where
  -- A connection stays open where the greeting fails.
  pub hello : Client → W → Bool × (Client × W)
  hello c w =
      if not c.connected
      then (false, (c, w))
      else (let (reply, w') = S.exchange (codes "HELLO 1") w in
          elim reply [
            | none ↦ (false, (c, w'))
            | some text ↦ (starts_with (codes "OK 1") text, (c, w'))
          ])

  connect_hello : Client → Bool × W → Bool × (Client × W)
  unfolding hello
  connect_hello c (false, w) = (false, (c, w))
  connect_hello c (true, w) = hello (record c { connected = true }) w

  reconnect : Client → W → Bool × (Client × W)
  unfolding connect_hello
  reconnect c w =
      let gone = record c { connected = false; held = [] } in
      if not c.has_path then (false, (gone, w)) else connect_hello gone (S.connect w)

  abbrev once : Bytes → Client → W → Option Bytes × (Client × W)
  once cmd c w = let (reply, w') = S.exchange cmd w in (reply, (c, w'))

  once_again : Bytes → Bool × (Client × W) → Option Bytes × (Client × W)
  once_again cmd (false, (c, w)) = (none, (c, w))
  once_again cmd (true, (c, w)) = once cmd c w

  -- A failed exchange is tried again on a new connection, but only with no lease held.
  pub retry : Bytes → Option Bytes × (Client × W) → Option Bytes × (Client × W)
  unfolding reconnect once_again
  retry cmd (some reply, (c, w)) = (some reply, (c, w))
  retry cmd (none, (c, w)) =
      if is_empty c.held then once_again cmd (reconnect c w) else (none, (c, w))

  pub rpc_from : Bytes → Bool × (Client × W) → Option Bytes × (Client × W)
  unfolding retry
  rpc_from cmd (false, (c, w)) = (none, (c, w))
  rpc_from cmd (true, (c, w)) = retry cmd (once cmd c w)

  pub rpc : Bytes → Client → W → Option Bytes × (Client × W)
  unfolding rpc_from
  rpc cmd c w = rpc_from cmd (if c.connected then (true, (c, w)) else reconnect c w)

-- The loop over `skip`, which ends behind the URL that makes the command long.
add_skips : Bytes → List Bytes → Bytes
add_skips cmd [] = cmd
add_skips cmd (u ∷ us) =
    let next = cmd ++ b' ' ∷ u in
    let more = add_skips next us in if ltb (k_ipc_max_line - 64) (length next) then next else more

pub acquire_command : List Bytes → Bytes
unfolding add_skips
acquire_command skip =
    if is_empty skip then codes "ACQUIRE" else add_skips (codes "ACQUIRE skip") skip

module _ {D : Type 0} (T : Formats D) (zero_mbps : D) where
  -- A reply to ACQUIRE: a lease where it has three words, the first of them OK.
  pub parse_acquired : List Bytes → Option (Acquired D)
  parse_acquired (ok ∷ url ∷ mbps ∷ rest) =
      if is_word ok "OK"
      then some (record { url = url; mbps = elim (T.stod mbps) [ none ↦ zero_mbps | some d ↦ d ] })
      else none
  parse_acquired tok = none

  module _ {W : Type 0} (S : Socket W) where
    -- One round of the loop: `inl` is its return, `inr` goes on to the wait.
    pub acquire_reply :
        Option Bytes × (Client × W) → (Option (Acquired D) ⊎ Unit {0}) × (Client × W)
    unfolding parse_acquired
    acquire_reply (none, (c, w)) = (inr tt, (reconnect S c w).1)
    acquire_reply (some reply, (c, w)) = elim (parse_acquired (ipc_split reply)) [
      | some a ↦ (inl (some a), (record c { held = c.held ++ a.url ∷ [] }, w))
      | none ↦
          if contains (codes "shutting-down") reply then (inl none, (c, w)) else (inr tt, (c, w))
    ]

    pub after_reply :
        (Option (Acquired D) ⊎ Unit {0}) × (Client × W)
        → (Client × W → Option (Acquired D) × (Client × W))
        → Option (Acquired D) × (Client × W)
    after_reply (inl result, rest) next = (result, rest)
    after_reply (inr _, rest) next = next rest

    -- `rounds` more rounds fit before the deadline; none with `wait_ms` 0.
    pub acquire_rounds : ℕ → Bytes → Client → W → Option (Acquired D) × (Client × W)
    unfolding acquire_reply rpc after_reply
    acquire_rounds zero cmd c w = after_reply (acquire_reply (rpc S cmd c w)) (λ x. (none, x))
    acquire_rounds (suc rounds) cmd c w =
        after_reply (acquire_reply (rpc S cmd c w)) (λ x. acquire_rounds rounds cmd x.0 x.1)

    pub client_acquire : ℕ → List Bytes → Client → W → Option (Acquired D) × (Client × W)
    unfolding acquire_rounds acquire_command
    client_acquire rounds skip c w = acquire_rounds rounds (acquire_command skip) c w

-- `shown` is how a stream writes the speed.
release_command : Bytes → Bool → Bytes → Bytes
release_command url success shown =
    codes "RELEASE " ++ (url ++ ((if success then codes " ok " else codes " fail ") ++ shown))

abbrev is_ok : Option Bytes → Bool
is_ok none = false
is_ok (some reply) = starts_with (codes "OK") reply

module _ {W : Type 0} (S : Socket W) where
  unfoldable client_release : Bytes → Bool → Bytes → Client → W → Bool × (Client × W)
  unfolding rpc release_command
  client_release url success shown c w =
      let (reply, (c', w')) = rpc S (release_command url success shown) c w in
      (is_ok reply, (record c' { held = erase_one_held c'.held url }, w'))

  unfoldable client_ping : Client → W → Bool × (Client × W)
  unfolding rpc
  client_ping c w =
      let (reply, rest) = rpc S (codes "PING") c w in
      (elim reply [ none ↦ false | some text ↦ bytes_eq text (codes "OK pong") ], rest)
