-- ===== src/Ipc/Tests.antt =====
-- Runs of the line protocol, and its theorems applied.
use proxchunk.Prelude.{◌≡◌, refl, true, false, some, [], ◌∷◌, arith, Bytes, codes, contains_byte}
use proxchunk.Ipc.{
  sent, send_interrupted, blocked, frame, ipc_write_line, ends_in_newline, timed_out, closed,
  received, line, again, split_newline, strip_cr, ipc_read_line, ipc_split,
}
use proxchunk.Ipc.Lines.{IsMessage}
use proxchunk.Ipc.Write.{Sends, ipc_write_line-Sends, ipc_write_line_total}
use proxchunk.Ipc.Read.{Reads, ipc_read_line-Reads}
use proxchunk.Ipc.Deliver.{Delivers, in_pieces, ipc_read_line-Delivers}

split_run : ipc_split (codes "  RELEASE  a:1 ok ") ≡ codes "RELEASE" ∷ codes "a:1" ∷ codes "ok" ∷ []
unfolding ipc_split
split_run = refl

short_writes :
    ipc_write_line true (codes "PING") (sent 2 ∷ send_interrupted ∷ blocked false ∷ sent 9 ∷ [])
    ≡ (some true, codes "PING\n")
unfolding ipc_write_line
short_writes = refl

deadline :
    ipc_write_line true (codes "PING") (sent 2 ∷ blocked true ∷ []) ≡ (some false, codes "PI")
unfolding ipc_write_line
deadline = refl

fragments :
    ipc_read_line true true
      (codes "OK")
      (received (codes " pong\r") ∷ received (codes "\nX") ∷ closed ∷ [])
    ≡ (some (line (codes "OK pong"), codes "X"), closed ∷ [])
unfolding ipc_read_line split_newline strip_cr
fragments = refl

one_round :
    ipc_read_line true false [] (received (codes "PI") ∷ received (codes "NG\n") ∷ [])
    ≡ (some (again, codes "PI"), received (codes "NG\n") ∷ [])
unfolding ipc_read_line split_newline strip_cr
one_round = refl

abbrev pong : Bytes
pong = codes "OK pong"

pong-IsMessage : IsMessage pong
unfolding contains_byte
pong-IsMessage = record { no_newline = refl; no_cr = refl; fits = omega arith }

ipc_write_line-Sends_example :
    Sends (frame pong) (ipc_write_line true pong (sent 3 ∷ blocked true ∷ []))
ipc_write_line-Sends_example = ipc_write_line-Sends pong (sent 3 ∷ blocked true ∷ []) (omega arith)

ipc_write_line_total_example :
    ipc_write_line true (codes "P") (sent 1 ∷ sent 1 ∷ []) ≡ (some true, frame (codes "P"))
unfolding frame ends_in_newline
ipc_write_line_total_example =
    ipc_write_line_total (codes "P") (sent 1 ∷ sent 1 ∷ []) (omega arith) (omega arith)
      (omega arith)

ipc_read_line-Reads_example :
    Reads
      (codes "O")
      (received (codes "K\nE") ∷ timed_out ∷ [])
      (ipc_read_line true true (codes "O") (received (codes "K\nE") ∷ timed_out ∷ []))
ipc_read_line-Reads_example =
    ipc_read_line-Reads true true (codes "O") (received (codes "K\nE") ∷ timed_out ∷ [])

ipc_read_line-Delivers_example :
    Delivers pong
      (codes "E")
      (ipc_read_line true true (codes "OK ") (in_pieces (codes "pon" ∷ codes "g\nE" ∷ [])))
ipc_read_line-Delivers_example =
    ipc_read_line-Delivers (codes "pon" ∷ codes "g\nE" ∷ []) (codes "OK ") pong (codes "E")
      pong-IsMessage refl
