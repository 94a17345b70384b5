-- ===== src/Client/Calls.antt =====
-- The other calls of ProxyClient in src/proxy_ipc.cpp: stats, set_target, stop, the destructor, and the
-- loop that starts a daemon where none answers.
mod Tests
pub mod Together
pub mod Answers
pub mod Status
pub mod Starting
use proxchunk.Prelude.{
  ℕ, zero, suc, ◌+◌, ◌-◌, ◌*◌, ◌/◌, ◌%◌, ◌≤◌, ◌<◌, min, max, String, ◌≡◌, refl, sym, ap, ◌∙◌, subst,
  ◌≢◌, ◌↔◌, ◌⊎◌, inl, inr, Bool, true, false, not, ◌&&◌, ◌||◌, Option, none, some, List, [], ◌∷◌,
  ◌++◌, map, append-nil, append_assoc, arith, ltb, leb, ◌==◌, if◌then◌else◌, ltb→lt, lt→ltb, leb→le,
  ==_iff, Bool-cases, Option-cases, length, take, drop, concat, is_empty, length-append,
  take-append-drop, length-take, length-drop, drop-length-append, All, All-append, All-append_left,
  All-append_right, ℤ, pos, negsuc, sub_ℕ, Bytes, codes, bytes_eq, bytes_eq_iff, bytes_eq_refl,
  starts_with, contains_byte, contains, decimal, is_space, is_digit, digits_from, skip_space,
  strtol, atoi, IsDigit, digits_from-append, decimal_from-IsDigit, strtol-decimal,
}
use proxchunk.Ipc.{in_front, ipc_split}
use proxchunk.Daemon.{Formats, is_word}
use proxchunk.Client.{Socket, Client, hello, rpc}

-- struct proxy_stats
pub record ProxyStats (D : Type 0) : Type 0 where
  pub stat_live : ℕ
  pub stat_busy : ℕ
  pub stat_top : D

-- Before and behind the first `=`.
pub at_equals : Bytes → Option (Bytes × Bytes)
at_equals [] = none
at_equals (c ∷ s) =
    let found = in_front c (at_equals s) in if c == b'=' then some ([], s) else found

-- `std::stoul` and `std::stoi`, or `none` where they throw; a negative number wraps around.
abbrev pub stoul : Bytes → Option ℕ
stoul s = elim (strtol s) [
  | none ↦ none
  | some (pos n) ↦ if leb n 18446744073709551615 then some n else none
  | some (negsuc n) ↦
      if leb (n + 1) 18446744073709551615 then some (18446744073709551616 - (n + 1)) else none
]

abbrev pub stoi : Bytes → Option ℤ
stoi s = elim (strtol s) [
  | none ↦ none
  | some (pos n) ↦ if leb n 2147483647 then some (pos n) else none
  | some (negsuc n) ↦ if leb n 2147483647 then some (negsuc n) else none
]

module _ {D : Type 0} (T : Formats D) where
  abbrev with_live : Option ℕ → ProxyStats D → ProxyStats D
  with_live none s = s
  with_live (some n) s = record s { stat_live = n }

  abbrev with_busy : Option ℕ → ProxyStats D → ProxyStats D
  with_busy none s = s
  with_busy (some n) s = record s { stat_busy = n }

  abbrev with_top : Option D → ProxyStats D → ProxyStats D
  with_top none s = s
  with_top (some d) s = record s { stat_top = d }

  -- One word of the reply behind OK.
  abbrev add_stat : Option (Bytes × Bytes) → ProxyStats D → ProxyStats D
  add_stat none s = s
  add_stat (some (key, val)) s =
      if is_word key "live"
      then with_live (stoul val) s
      else if is_word key "busy"
      then with_busy (stoul val) s
      else if is_word key "top_mbps"
      then with_top (T.stod val) s
      else s

  pub add_stats : ProxyStats D → List Bytes → ProxyStats D
  unfolding at_equals
  add_stats s [] = s
  add_stats s (t ∷ tok) = add_stats (add_stat (at_equals t) s) tok

  abbrev parse_stats : D → List Bytes → Option (ProxyStats D)
  parse_stats zero_mbps [] = none
  parse_stats zero_mbps (ok ∷ tok) =
      if not (is_word ok "OK")
      then none
      else some (add_stats (record { stat_live = 0; stat_busy = 0; stat_top = zero_mbps }) tok)

  abbrev pub stats_reply : D → Option Bytes → Option (ProxyStats D)
  stats_reply zero_mbps none = none
  stats_reply zero_mbps (some reply) = parse_stats zero_mbps (ipc_split reply)

abbrev pub target_reply : Option Bytes → ℤ
target_reply none = negsuc 0
target_reply (some reply) =
    if not (starts_with (codes "OK ") reply)
    then negsuc 0
    else elim (stoi (drop 3 reply)) [ none ↦ negsuc 0 | some n ↦ n ]

abbrev stop_reply : Option Bytes → Bool
stop_reply none = false
stop_reply (some reply) = contains (codes "shutting-down") reply

abbrev pub fail_command : Bytes → Bytes
fail_command url = codes "RELEASE " ++ (url ++ codes " fail 0")

module _ {W : Type 0} (S : Socket W) where
  pub client_stats :
      {D : Type 0} (T : Formats D) (zero_mbps : D) (c : Client) (w : W)
      → Option (ProxyStats D) × (Client × W)
  unfolding rpc add_stats
  client_stats T zero_mbps c w =
      let (reply, rest) = rpc S (codes "STATS") c w in (stats_reply T zero_mbps reply, rest)

  pub set_target : Bytes → Client → W → ℤ × (Client × W)
  unfolding rpc
  set_target url c w =
      let (reply, rest) = rpc S (codes "TARGET " ++ url) c w in (target_reply reply, rest)

  unfoldable client_stop : Client → W → Bool × (Client × W)
  unfolding rpc
  client_stop c w = let (reply, rest) = rpc S (codes "STOP") c w in (stop_reply reply, rest)

  -- The destructor's loop over the leases; the answers are read and thrown away.
  pub release_held : List Bytes → W → W
  release_held [] w = w
  release_held (url ∷ urls) w = release_held urls (S.exchange (fail_command url) w).1

  -- The destructor: what is behind the socket afterwards.
  pub destroy : Client → W → W
  unfolding release_held
  destroy c w = if c.connected then release_held c.held w else w

  -- `connect` behind `close`, the greeting, and a PING.
  abbrev pub pinged : Option Bytes × W → Bool × W
  pinged (none, w) = (false, w)
  pinged (some reply, w) = (bytes_eq reply (codes "OK pong"), w)

  abbrev greeted_ping : Bool × (Client × W) → Bool × W
  greeted_ping (false, (c, w)) = (false, w)
  greeted_ping (true, (c, w)) = pinged (S.exchange (codes "PING") w)

  pub answers : Client → W → Bool × W
  unfolding hello
  answers c w =
      let (there, w') = S.connect w in
      let greeted = hello S (record c { connected = true }) w' in
      if there then greeted_ping greeted else (false, w')

  -- The loop of connect_or_start, with as many rounds as fit before the deadline; `spawn` is
  -- spawn_daemon, which is called at most twice.
  pub start_rounds : (W → W) → ℕ → ℕ → Client → W → Bool × (Client × W)
  unfolding answers
  start_rounds spawn zero spawns c w = (false, (c, w))
  start_rounds spawn (suc rounds) spawns c w =
      let (there, w') = answers c w in
      let gone = record c { connected = false } in
      let again = start_rounds spawn rounds (spawns + 1) gone (spawn w') in
      let waiting = start_rounds spawn rounds spawns gone w' in
      if there
      then (true, (record c { connected = true }, w'))
      else if ltb spawns 2
      then again
      else waiting

  pub connect_or_start : (W → W) → ℕ → Client → W → Bool × (Client × W)
  unfolding start_rounds
  connect_or_start spawn rounds c w = start_rounds spawn rounds 0 (record c { has_path = true }) w
