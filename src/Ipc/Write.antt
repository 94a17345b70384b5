-- ===== src/Ipc/Write.antt =====
-- ipc_write_line: what goes out on the socket, and when it succeeds.
use proxchunk.Prelude.{
  zero, suc, ◌+◌, ◌-◌, ◌≤◌, ◌<◌, ◌≡◌, refl, sym, ap, ◌∙◌, ◌↔◌, Bool, true, false, Option, some,
  List, [], ◌∷◌, ◌++◌, append_assoc, arith, ltb, ◌==◌, length, take, drop, length-append,
  take-append-drop, length-drop, Bytes,
}
use proxchunk.Ipc.{
  k_ipc_max_line, SendEvent, sent, send_interrupted, blocked, send_failed, frame, send_loop,
  ipc_write_line,
}

-- Success is the whole buffer; otherwise a proper prefix of it went out.
abbrev pub Sends : Bytes → Option Bool × Bytes → Type 0
Sends buf r = (rest : Bytes) × (buf ≡ r.1 ++ rest) × ((r.0 ≡ some true) ↔ (rest ≡ []))

send_loop-Sends : (buf : Bytes) (events : List SendEvent) → Sends buf (send_loop buf events)
unfolding send_loop
send_loop-Sends [] events = ([], refl, ((λ _. refl), (λ _. refl)))
send_loop-Sends (c ∷ buf) [] = (c ∷ buf, refl, ((λ h. cc), (λ h. cc)))
send_loop-Sends (c ∷ buf) (send_interrupted ∷ events) = send_loop-Sends (c ∷ buf) events
send_loop-Sends (c ∷ buf) (blocked true ∷ events) = (c ∷ buf, refl, ((λ h. cc), (λ h. cc)))
send_loop-Sends (c ∷ buf) (blocked false ∷ events) = send_loop-Sends (c ∷ buf) events
send_loop-Sends (c ∷ buf) (send_failed ∷ events) = (c ∷ buf, refl, ((λ h. cc), (λ h. cc)))
send_loop-Sends (c ∷ buf) (sent zero ∷ events) = (c ∷ buf, refl, ((λ h. cc), (λ h. cc)))
send_loop-Sends (c ∷ buf) (sent (suc n) ∷ events) =
    let (rest, e, whole) = send_loop-Sends (drop (suc n) (c ∷ buf)) events in
    let test : (suc n == 0) ≡ false = ground arith in
    rw test (
      rest,
      ap (◌∷◌ c) (
          sym (take-append-drop n buf)
          ∙ ap (◌++◌ (take n buf)) e
          ∙ sym (append_assoc (take n buf) (send_loop (drop n buf) events).1 rest)),
      whole,
    )

-- Every answer is of at least one byte.
abbrev Accepts : List SendEvent → Type 0
Accepts [] = Unit {0}
Accepts (sent n ∷ es) = (0 < n) × Accepts es
Accepts (_ ∷ es) = ⊥

send_loop_total :
    (buf : Bytes) (events : List SendEvent)
    → length buf ≤ length events
    → Accepts events
    → send_loop buf events ≡ (some true, buf)
unfolding send_loop
send_loop_total [] events h a = refl
send_loop_total (c ∷ buf) [] h a = absurd (omega arith)
send_loop_total (c ∷ buf) (send_interrupted ∷ es) h a = absurd a
send_loop_total (c ∷ buf) (blocked b ∷ es) h a = absurd a
send_loop_total (c ∷ buf) (send_failed ∷ es) h a = absurd a
send_loop_total (c ∷ buf) (sent zero ∷ es) h a = absurd (omega arith)
send_loop_total (c ∷ buf) (sent (suc n) ∷ es) h a =
    let test : (suc n == 0) ≡ false = ground arith in
    rw (test, send_loop_total (drop n buf) es (omega (arith, length-drop n buf)) a.1)
      (ap (λ (x : Bytes). (some true, c ∷ x)) (take-append-drop n buf))

length-frame : (l : Bytes) → length (frame l) ≤ length l + 1
unfolding frame
length-frame l = ground (arith, length-append l (b'\n' ∷ []))

ipc_write_line_fits :
    (l : Bytes) (events : List SendEvent)
    → length l < k_ipc_max_line
    → ipc_write_line true l events ≡ send_loop (frame l) events
unfolding ipc_write_line
ipc_write_line_fits l events h =
    let short : ltb (k_ipc_max_line - 1) (length l) ≡ false = ground arith in
    let frame_short : ltb k_ipc_max_line (length (frame l)) ≡ false =
      ground (arith, length-frame l) in
    rw (short, frame_short)

-- On a valid descriptor and a line that fits with its newline: what goes out is a prefix of the
-- framed line, and `true` is returned exactly when all of it went out.
pub ipc_write_line-Sends :
    (l : Bytes) (events : List SendEvent)
    → length l < k_ipc_max_line
    → Sends (frame l) (ipc_write_line true l events)
ipc_write_line-Sends l events h =
    rw (ipc_write_line_fits l events h) (send_loop-Sends (frame l) events)

-- A line that does not fit is refused with nothing sent.
ipc_write_line_long :
    (fd_valid : Bool) (l : Bytes) (events : List SendEvent)
    → k_ipc_max_line ≤ length l
    → ipc_write_line fd_valid l events ≡ (some false, [])
unfolding ipc_write_line
ipc_write_line_long fd_valid l events h = ground arith

-- However short the writes, a line that fits is sent whole once the kernel has answered as many
-- rounds as the frame has bytes, each with at least one byte taken.
pub ipc_write_line_total :
    (l : Bytes) (events : List SendEvent)
    → length l < k_ipc_max_line
    → length (frame l) ≤ length events
    → Accepts events
    → ipc_write_line true l events ≡ (some true, frame l)
ipc_write_line_total l events h k a =
    ipc_write_line_fits l events h ∙ send_loop_total (frame l) events k a
