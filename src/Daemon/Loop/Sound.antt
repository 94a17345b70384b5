-- ===== src/Daemon/Loop/Sound.antt =====
-- One connection is served to its end, and no lease leaks on the way.
use proxchunk.Prelude.{
  ℕ, zero, suc, ◌+◌, ◌<◌, ◌≡◌, refl, ap, ◌∙◌, subst, ◌⊎◌, inl, inr, Bool, true, false, not, ◌&&◌,
  Option, none, some, List, [], ◌∷◌, ◌++◌, arith, if◌then◌else◌, length, length-append, All, Bytes,
}
use proxchunk.Ipc.{
  ReadEvent, timed_out, poll_interrupted, poll_failed, hung_up, recv_interrupted, would_block,
  recv_failed, closed, received, ReadResult, line, again, eof, error, overflow, ipc_read_line,
}
use proxchunk.Ipc.Read.{bytes_of, Reads, Explains, ipc_read_line-Reads}
use proxchunk.Engine.Rows.{Floats, Proxy}
use proxchunk.Engine.Install.{install_tested}
use proxchunk.Engine.Install.Carry.{IsTested}
use proxchunk.Engine.Install.Leases.{install_tested-leases}
use proxchunk.Engine.Install.Distinct.{install_tested-HasDistinctRows}
use proxchunk.Engine.{Engine}
use proxchunk.Daemon.{Formats, Conn, CmdResult, ok, close, stop_daemon, handle_line, drop_conn}
use proxchunk.Daemon.Leases.{Keeps, Keeps-same, Keeps-trans, handle_line-Keeps, release_all-Keeps}
use proxchunk.Daemon.Loop.{
  Meeting, Visit, Served, received_length, refresh_all, kept, dropped, after_command, after_read,
  serve_lines, visit,
}

-- A connection that is closed holds nothing.
abbrev pub IsTidy : Conn → Type 0
IsTidy c = (c.open_fd ≡ true) ⊎ (c.held ≡ [])

module _ {D : Type 0} where
  abbrev Serves : Conn → Engine D → Served D → Type 0
  Serves c e s = Keeps c.held e s.conn.held s.engine × IsTidy s.conn

  -- There is a result, and no lease leaks in it.
  abbrev pub Fine : Conn → Engine D → Option (Served D) → Type 0
  Fine c e o = (s : Served D) × (o ≡ some s) × Serves c e s

  Fine-after :
      (c : Conn) (e : Engine D) (c' : Conn) (e' : Engine D) (o : Option (Served D))
      → Keeps c.held e c'.held e'
      → Fine c' e' o
      → Fine c e o
  Fine-after c e c' e' o h (s, got, (k, tidy)) =
      (s, got, (Keeps-trans c.held e c'.held e' s.conn.held s.engine h k, tidy))

  Fine-if :
      (c : Conn) (e : Engine D) (b : Bool) (x y : Option (Served D))
      → Fine c e x
      → (b ≡ false → Fine c e y)
      → Fine c e (if b then x else y)
  Fine-if c e true x y h k = h
  Fine-if c e false x y h k = k refl

received_length-bytes_of : (es : List ReadEvent) → received_length es ≡ length (bytes_of es)
unfolding received_length
received_length-bytes_of [] = refl
received_length-bytes_of (received b ∷ es) =
    omega (arith, received_length-bytes_of es, length-append b (bytes_of es))
received_length-bytes_of (timed_out ∷ es) = received_length-bytes_of es
received_length-bytes_of (poll_interrupted ∷ es) = received_length-bytes_of es
received_length-bytes_of (poll_failed ∷ es) = received_length-bytes_of es
received_length-bytes_of (hung_up ∷ es) = received_length-bytes_of es
received_length-bytes_of (recv_interrupted ∷ es) = received_length-bytes_of es
received_length-bytes_of (would_block ∷ es) = received_length-bytes_of es
received_length-bytes_of (recv_failed ∷ es) = received_length-bytes_of es
received_length-bytes_of (closed ∷ es) = received_length-bytes_of es

bytes_of-append :
    (us es : List ReadEvent) → received_length (us ++ es) ≡ received_length us + received_length es
unfolding received_length
bytes_of-append [] es = omega arith
bytes_of-append (received b ∷ us) es = omega (arith, bytes_of-append us es)
bytes_of-append (timed_out ∷ us) es = bytes_of-append us es
bytes_of-append (poll_interrupted ∷ us) es = bytes_of-append us es
bytes_of-append (poll_failed ∷ us) es = bytes_of-append us es
bytes_of-append (hung_up ∷ us) es = bytes_of-append us es
bytes_of-append (recv_interrupted ∷ us) es = bytes_of-append us es
bytes_of-append (would_block ∷ us) es = bytes_of-append us es
bytes_of-append (recv_failed ∷ us) es = bytes_of-append us es
bytes_of-append (closed ∷ us) es = bytes_of-append us es

abbrev ExplainsOption : Bytes → Option (ReadResult × Bytes) → Type 0
ExplainsOption stream none = Unit {0}
ExplainsOption stream (some (result, left)) = Explains stream result left

-- A line that is read takes at least its newline.
line-shrinks :
    (fd blocking : Bool) (leftover : Bytes) (es : List ReadEvent) (text buf : Bytes)
    → (ipc_read_line fd blocking leftover es).0 ≡ some (line text, buf)
    → length buf + received_length (ipc_read_line fd blocking leftover es).1
      < length leftover + received_length es
line-shrinks fd blocking leftover es text buf got =
    shrinks (ipc_read_line fd blocking leftover es) (ipc_read_line-Reads fd blocking leftover es)
      got
  where
    shrinks :
        (r : Option (ReadResult × Bytes) × List ReadEvent)
        → Reads leftover es r
        → r.0 ≡ some (line text, buf)
        → length buf + received_length r.1 < length leftover + received_length es
    shrinks (none, rest) h got = absurd (ground arith)
    shrinks (some (result, left), rest) (used, split, why) got =
        let whole : Explains (leftover ++ bytes_of used) (line text) buf =
          subst (λ (p : Option (ReadResult × Bytes)). ExplainsOption (leftover ++ bytes_of used) p)
            got why in
        let (u, (cut, _), _, _) = whole in
        rw split (
          omega (
            arith,
            ap length cut,
            length-append u (b'\n' ∷ buf),
            length-append leftover (bytes_of used),
            received_length-bytes_of used,
            bytes_of-append used rest,
          ))

module _ {D : Type 0} ⦃F : Floats D⦄ where
  refresh_all-Keeps :
      (held : List Bytes) (e : Engine D) (ms : List (List (Proxy D)))
      → All IsTested ms
      → Keeps held e held (refresh_all e ms)
  unfolding refresh_all
  refresh_all-Keeps held e [] v = Keeps-same held e
  refresh_all-Keeps held e (tested ∷ ms) v =
      Keeps-trans held e held (install_tested e tested) held
        (refresh_all (install_tested e tested) ms)
        (λ d. (
          install_tested-HasDistinctRows e tested d v.0.1,
          λ a others h. omega (arith, install_tested-leases e tested d v.0.0 a, h),
        ))
        (refresh_all-Keeps held (install_tested e tested) ms v.1)

  dropped-Fine : (c : Conn) (e : Engine D) → Fine c e (some (dropped c e))
  unfolding drop_conn
  dropped-Fine c e = (_, refl, (release_all-Keeps e c.held, inr refl))

  kept-Fine : (c : Conn) (e : Engine D) → IsTidy c → Fine c e (some (kept c e))
  kept-Fine c e tidy = (_, refl, (Keeps-same c.held e, tidy))

  after_command-Fine :
      (result : CmdResult) (c : Conn) (e : Engine D) (next : Conn → Engine D → Option (Served D))
      → c.open_fd ≡ true
      → Fine c e (next c e)
      → Fine c e (after_command result c e next)
  unfolding after_command
  after_command-Fine ok c e next is_open h = h
  after_command-Fine close c e next is_open h = dropped-Fine c e
  after_command-Fine stop_daemon c e next is_open h = (_, refl, (Keeps-same c.held e, inl is_open))

  after_read-Fine :
      (T : Formats D) (got : Option (ReadResult × Bytes)) (m : Meeting D) (c : Conn) (e : Engine D)
      (next : Conn → Engine D → Option (Served D))
      → All IsTested m.refreshed
      → c.open_fd ≡ true
      → ((text buf : Bytes) (c' : Conn) (e' : Engine D)
          → got ≡ some (line text, buf)
          → c'.open_fd ≡ true
          → c'.buf ≡ buf
          → Fine c' e' (next c' e'))
      → Fine c e (after_read T got m c e next)
  unfolding after_read
  after_read-Fine T none m c e next fresh is_open h = kept-Fine c e (inl is_open)
  after_read-Fine T (some (again, buf)) m c e next fresh is_open h =
      kept-Fine (record c { buf = buf }) e (inl is_open)
  after_read-Fine T (some (eof, buf)) m c e next fresh is_open h =
      dropped-Fine (record c { buf = buf }) e
  after_read-Fine T (some (error, buf)) m c e next fresh is_open h =
      dropped-Fine (record c { buf = buf }) e
  after_read-Fine T (some (overflow, buf)) m c e next fresh is_open h =
      dropped-Fine (record c { buf = buf }) e
  after_read-Fine T (some (line text, buf)) m c e next fresh is_open h =
      let e' = refresh_all e m.refreshed in
      let c' : Conn = record c { buf = buf } in
      let r = handle_line T m.outside false text c' e' in
      let (k, same_fd, same_buf) = handle_line-Keeps T m.outside false text c' e' in
      Fine-after c e r.conn r.engine (after_command r.result r.conn r.engine next)
        (Keeps-trans c.held e c.held e' r.conn.held r.engine
          (refresh_all-Keeps c.held e m.refreshed fresh) k)
        (after_command-Fine r.result r.conn r.engine next (same_fd ∙ is_open)
          (h text buf r.conn r.engine refl (same_fd ∙ is_open) same_buf))

  -- The loop over the lines of an open connection ends within a round for each byte it has or will
  -- receive and one more, whatever the lines ask for.
  serve_lines-Fine :
      (T : Formats D) (fuel : ℕ) (es : List ReadEvent) (meets : ℕ → Meeting D) (c : Conn)
      (e : Engine D)
      → length c.buf + received_length es < fuel
      → ((n : ℕ) → All IsTested (meets n).refreshed)
      → c.open_fd ≡ true
      → Fine c e (serve_lines T fuel es meets c e)
  unfolding serve_lines
  serve_lines-Fine T zero es meets c e enough fresh is_open = absurd (omega arith)
  serve_lines-Fine T (suc fuel) es meets c e enough fresh is_open =
      let (got, es') = ipc_read_line c.open_fd false c.buf es in
      after_read-Fine T got (meets 0) c e _ (fresh 0) is_open
        (λ text buf c' e' is_line is_open' same_buf.
          serve_lines-Fine T fuel es' (λ n. meets (suc n)) c' e'
            (ground (arith, same_buf, line-shrinks c.open_fd false c.buf es text buf is_line))
            (λ n. fresh (suc n)) is_open')

  -- For any connection that is open or holds nothing, and whatever poll and recv report and the
  -- commands meet, provided a refresh installs only unleased rows with distinct addresses: the visit
  -- ends; where the addresses of the rows are distinct they stay so, and an address that has no more
  -- leased rows than holders, counting this connection's list and any number of others, still has no
  -- more; and a connection that the visit closes holds nothing any more.
  pub visit-Fine :
      (T : Formats D) (v : Visit D) (c : Conn) (e : Engine D)
      → ((n : ℕ) → All IsTested (v.meetings n).refreshed)
      → IsTidy c
      → Fine c e (visit T v c e)
  unfolding visit
  visit-Fine T v c e fresh tidy = Fine-if c e (not c.open_fd) _ _ (kept-Fine c e tidy) (λ is_on.
      Fine-if c e v.pollerr _ _ (dropped-Fine c e) (λ _.
        Fine-if c e (not v.pollin && v.pollhup) _ _ (dropped-Fine c e) (λ _.
          Fine-if c e (not v.pollin) _ _ (kept-Fine c e tidy) (λ _.
            serve_lines-Fine T (suc (length c.buf + received_length v.reads)) v.reads v.meetings c e
              (omega arith) fresh (ground arith)))))
