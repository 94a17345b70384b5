-- ===== src/Ipc.antt =====
-- The line protocol of include/proxchunk/proxy_ipc.hpp and src/proxy_ipc.cpp: framing and tokens.
-- The kernel's answers to send, poll and recv are given as lists of events, one for each round
-- of the loop; a list that ends before the call returns is `none`, a call that still waits.
pub mod Lines
pub mod Write
pub mod Read
pub mod Deliver
pub mod Split
mod Tests
use proxchunk.Prelude.{
  ℕ, zero, suc, ◌-◌, Bool, true, false, not, Option, none, some, List, [], ◌∷◌, ◌++◌, ltb, leb,
  ◌==◌, if◌then◌else◌, length, take, drop, is_empty, Bytes,
}

abbrev pub k_ipc_max_line : ℕ
k_ipc_max_line = 4096

abbrev pub in_front : ℕ → Option (Bytes × Bytes) → Option (Bytes × Bytes)
in_front c none = none
in_front c (some (a, b)) = some (c ∷ a, b)

-- At the first newline: what stands in front of it, and what stands behind it.
pub split_newline : Bytes → Option (Bytes × Bytes)
split_newline [] = none
split_newline (c ∷ s) =
    let found = in_front c (split_newline s) in if c == b'\n' then some ([], s) else found

-- `pop_back` of one carriage return.
pub strip_cr : Bytes → Bytes
strip_cr [] = []
strip_cr (c ∷ []) = if c == b'\r' then [] else c ∷ []
strip_cr (c ∷ d ∷ s) = c ∷ strip_cr (d ∷ s)

abbrev pub without_cr : Option (Bytes × Bytes) → Option (Bytes × Bytes)
without_cr none = none
without_cr (some (l, rest)) = some (strip_cr l, rest)

-- The line and the new leftover; `none` is `false`, with the leftover as it was.
pub extract_line : Bytes → Option (Bytes × Bytes)
extract_line leftover = without_cr (split_newline leftover)

-- What one round of the send loop meets. `blocked true` is EAGAIN with the deadline passed, or
-- with a poll that fails, times out or reports a hangup.
pub data SendEvent : Type 0 where
  sent : ℕ → SendEvent
  send_interrupted : SendEvent
  blocked : Bool → SendEvent
  send_failed : SendEvent

pub ends_in_newline : Bytes → Bool
ends_in_newline [] = false
ends_in_newline (c ∷ []) = c == b'\n'
ends_in_newline (c ∷ d ∷ s) = ends_in_newline (d ∷ s)

-- The buffer that is sent.
pub frame : Bytes → Bytes
frame line = if ends_in_newline line then line else line ++ b'\n' ∷ []

-- The loop `while (off < buf.size())`: the result, and the bytes that went out.
pub send_loop : Bytes → List SendEvent → Option Bool × Bytes
send_loop [] events = (some true, [])
send_loop (c ∷ buf) [] = (none, [])
send_loop (c ∷ buf) (send_interrupted ∷ events) = send_loop (c ∷ buf) events
send_loop (c ∷ buf) (blocked gives_up ∷ events) =
    let again = send_loop (c ∷ buf) events in if gives_up then (some false, []) else again
send_loop (c ∷ buf) (send_failed ∷ events) = (some false, [])
send_loop (c ∷ buf) (sent n ∷ events) =
    let rest = send_loop (drop n (c ∷ buf)) events in
    if n == 0 then (some false, []) else (rest.0, take n (c ∷ buf) ++ rest.1)

pub ipc_write_line : Bool → Bytes → List SendEvent → Option Bool × Bytes
unfolding frame send_loop ends_in_newline
ipc_write_line fd_valid line events =
    if not fd_valid
    then (some false, [])
    else if ltb (k_ipc_max_line - 1) (length line)
    then (some false, [])
    else if ltb k_ipc_max_line (length (frame line))
    then (some false, [])
    else send_loop (frame line) events

-- What one round of the read loop meets: the deadline or an empty poll, a failed poll or an error
-- flag, a hangup with nothing to read, and the outcomes of recv.
pub data ReadEvent : Type 0 where
  timed_out poll_interrupted poll_failed hung_up : ReadEvent
  recv_interrupted would_block recv_failed closed : ReadEvent
  received : Bytes → ReadEvent

pub data ReadResult : Type 0 where
  line : Bytes → ReadResult
  again eof error overflow : ReadResult

pub at_end : Bytes → ReadResult
at_end leftover = if is_empty leftover then eof else error

pub checked_line : Bytes → ReadResult
checked_line l = if ltb (k_ipc_max_line - 1) (length l) then overflow else line l

-- `for (;;)`: the result with the new leftover, and the events that are left.
pub read_loop : Bool → Bytes → List ReadEvent → Option (ReadResult × Bytes) × List ReadEvent
unfolding at_end checked_line
read_loop blocking leftover [] = (none, [])
read_loop blocking leftover (timed_out ∷ es) = (some (again, leftover), es)
read_loop blocking leftover (poll_interrupted ∷ es) = read_loop blocking leftover es
read_loop blocking leftover (poll_failed ∷ es) = (some (error, leftover), es)
read_loop blocking leftover (hung_up ∷ es) = (some (at_end leftover, leftover), es)
read_loop blocking leftover (recv_interrupted ∷ es) = read_loop blocking leftover es
read_loop blocking leftover (would_block ∷ es) = (some (again, leftover), es)
read_loop blocking leftover (recv_failed ∷ es) = (some (error, leftover), es)
read_loop blocking leftover (closed ∷ es) = (some (at_end leftover, leftover), es)
read_loop blocking leftover (received tmp ∷ es) =
    let more = read_loop blocking (leftover ++ tmp) es in
    elim (extract_line (leftover ++ tmp)) [
      | some (l, rest) ↦ (some (checked_line l, rest), es)
      | none ↦
          if leb k_ipc_max_line (length (leftover ++ tmp))
          then (some (overflow, leftover ++ tmp), es)
          else if not blocking
          then (some (again, leftover ++ tmp), es)
          else more
    ]

pub ipc_read_line :
    Bool → Bool → Bytes → List ReadEvent → Option (ReadResult × Bytes) × List ReadEvent
unfolding read_loop extract_line
ipc_read_line fd_valid blocking leftover es = elim (extract_line leftover) [
  | some (l, rest) ↦ (some (checked_line l, rest), es)
  | none ↦
      if leb k_ipc_max_line (length leftover)
      then (some (overflow, leftover), es)
      else if not fd_valid
      then (some (error, leftover), es)
      else read_loop blocking leftover es
]

-- The loops of `ipc_split`: over spaces, and over a token.
pub skip_spaces : Bytes → Bytes
skip_spaces [] = []
skip_spaces (c ∷ s) = let rest = skip_spaces s in if c == b' ' then rest else c ∷ s

pub token_of : Bytes → Bytes
token_of [] = []
token_of (c ∷ s) = let rest = token_of s in if c == b' ' then [] else c ∷ rest

pub after_token : Bytes → Bytes
after_token [] = []
after_token (c ∷ s) = let rest = after_token s in if c == b' ' then c ∷ s else rest

pub split_from : ℕ → Bytes → List Bytes
unfolding skip_spaces token_of after_token
split_from zero s = []
split_from (suc fuel) s =
    let r = skip_spaces s in
    let rest = split_from fuel (after_token r) in if is_empty r then [] else token_of r ∷ rest

-- Each round takes at least one byte.
unfoldable pub ipc_split : Bytes → List Bytes
unfolding split_from
ipc_split l = split_from (length l) l
