-- ===== src/Client/Session.antt =====
-- The client and the daemon's command handler together, over one connection.
use proxchunk.Prelude.{
  ℕ, zero, suc, ◌+◌, ◌-◌, ◌≤◌, ◌≡◌, refl, ap, ◌∙◌, inl, true, false, Option, none, some, List, [],
  ◌∷◌, ◌++◌, arith, ltb, if◌then◌else◌, length, take, length-append, Bytes, codes, bytes_eq,
  contains_byte,
}
use proxchunk.Ipc.{k_ipc_max_line, ipc_split}
use proxchunk.Ipc.Split.{IsToken, ipc_split-join}
use proxchunk.Engine.Rows.{Floats, Proxy}
use proxchunk.Engine.{Engine, acquire}
use proxchunk.Daemon.{
  Formats, Conn, ok, close, stop_daemon, Outside, Handled, grant, skip_of, handle_acquire, dispatch,
  handle_tokens, handle_line, drop_conn,
}
use proxchunk.Client.{
  Socket, Client, Acquired, rpc, rpc_from, retry, parse_acquired, acquire_reply, after_reply,
  acquire_rounds, acquire_command, client_acquire,
}

-- The two ends of an open session, with the same leases in both lists.
abbrev pub client_of : List Bytes → Client
client_of held = record { connected = true; has_path = true; held = held }

abbrev pub conn_of : List Bytes → Bytes → Conn
conn_of held buf = record { open_fd = true; buf = buf; held = held; greeted = true }

abbrev lease_words : Bytes → Bytes → List Bytes
lease_words url mbps = codes "OK" ∷ url ∷ mbps ∷ []

-- What the daemon writes for a lease.
abbrev lease_text : Bytes → Bytes → Bytes
lease_text url mbps = codes "OK " ++ (url ++ (codes " " ++ mbps))

pub take_all : (n : ℕ) (s : Bytes) → length s ≤ n → take n s ≡ s
take_all zero [] h = refl
take_all zero (c ∷ s) h = absurd (omega (arith, h))
take_all (suc n) [] h = refl
take_all (suc n) (c ∷ s) h = ap (◌∷◌ c) (take_all n s (omega (arith, h)))

split-lease_text :
    (n : ℕ) (url mbps : Bytes)
    → IsToken url
    → IsToken mbps
    → length url + length mbps + 4 ≤ n
    → ipc_split (take n (lease_text url mbps)) ≡ lease_words url mbps
unfolding contains_byte
split-lease_text n url mbps u m fits =
    ap ipc_split (
      take_all n (lease_text url mbps) (omega (arith, length-append url (codes " " ++ mbps), fits)))
    ∙ ipc_split-join (lease_words url mbps) (record { full = refl; no_space = refl }, (u, (m, tt)))

-- Behind the socket: what the commands meet outside the daemon, and what comes of a command with a newline
-- in it, which is more than one line.
pub record Wire (D : Type 0) : Type 0 where
  pub outside : Outside D
  pub torn : Bytes → Conn × Engine D → Option Bytes × (Conn × Engine D)

-- A command that ipc_write_line takes, and that is one line.
pub record IsSent (cmd : Bytes) : Type 0 where
  pub fits : length cmd ≤ k_ipc_max_line - 1
  pub one_line : contains_byte b'\n' cmd ≡ false

module _ {D : Type 0} ⦃F : Floats D⦄ where
  abbrev pub answered : Handled D → Option Bytes × (Conn × Engine D)
  answered r = elim r.result [
    | ok ↦ (r.reply, (r.conn, r.engine))
    | stop_daemon ↦ (r.reply, (r.conn, r.engine))
    | close ↦ (r.reply, drop_conn r.conn r.engine)
  ]

  -- The daemon behind the socket, one command at a time. A command that is too long is not written; a
  -- closed connection answers nothing, and no other one comes about.
  abbrev pub daemon_socket : Formats D → Wire D → Socket (Conn × Engine D)
  daemon_socket T o = record {
    connect = λ w. (false, w);
    exchange = λ cmd w.
        if ltb (k_ipc_max_line - 1) (length cmd)
        then (none, w)
        else if contains_byte b'\n' cmd
        then o.torn cmd w
        else if w.0.open_fd
        then answered (handle_line T o.outside false cmd w.0 w.1)
        else (none, w);
  }

  abbrev pub outside_of : (List Bytes → Option (List (Bytes × D))) → Wire D
  outside_of probe = record {
    outside = record { probe = probe; reply_sent = true };
    torn = λ cmd w. (none, w);
  }

  pub sent_exchange :
      (T : Formats D) (o : Wire D) (cmd : Bytes) (held : List Bytes) (buf : Bytes) (e : Engine D)
      → IsSent cmd
      → (daemon_socket T o).exchange cmd (conn_of held buf, e)
        ≡ answered (handle_line T o.outside false cmd (conn_of held buf) e)
  sent_exchange T o cmd held buf e sent =
      let short : ltb (k_ipc_max_line - 1) (length cmd) ≡ false = ground (arith, sent.fits) in
      rw (short, sent.one_line) refl

  acquire_exchange :
      (T : Formats D) (o : Outside D) (held : List Bytes) (buf : Bytes) (e : Engine D)
      → handle_line T o false (codes "ACQUIRE") (conn_of held buf) e
        ≡ grant T o (conn_of held buf) (acquire e [])
  unfolding handle_line handle_tokens dispatch handle_acquire skip_of ipc_split bytes_eq
  acquire_exchange T o held buf e = refl

  rpc-acquire :
      (T : Formats D) (probe : List Bytes → Option (List (Bytes × D))) (held : List Bytes)
      (buf : Bytes) (e e' : Engine D) (p : Proxy D)
      → acquire e [] ≡ (some p, e')
      → rpc
          (daemon_socket T (outside_of probe))
          (codes "ACQUIRE")
          (client_of held)
          (conn_of held buf, e)
        ≡ (
          some (take (k_ipc_max_line - 1) (lease_text p.address (T.fixed4 p.speed_mbps))),
          (client_of held, (conn_of (held ++ p.address ∷ []) buf, e')),
        )
  unfolding rpc rpc_from retry grant contains_byte
  rpc-acquire T probe held buf e e' p h =
      ap
        (λ (r : Handled D).
          retry (daemon_socket T (outside_of probe)) (codes "ACQUIRE")
            ((answered r).0, (client_of held, (answered r).1)))
        (acquire_exchange T (outside_of probe).outside held buf e
          ∙ ap (grant T (outside_of probe).outside (conn_of held buf)) h)

  acquire_reply-lease :
      (T : Formats D) (zero_mbps : D) (W : Type 0) (S : Socket W) (reply url mbps : Bytes) (d : D)
      (c : Client) (w : W)
      → ipc_split reply ≡ lease_words url mbps
      → T.stod mbps ≡ some d
      → acquire_reply T zero_mbps S (some reply, (c, w))
        ≡ (inl (some (record { url = url; mbps = d })), (record c { held = c.held ++ url ∷ [] }, w))
  unfolding acquire_reply parse_acquired bytes_eq
  acquire_reply-lease T zero_mbps W S reply url mbps d c w words read =
      rw (words, acquire_reply, read) refl

  acquire_rounds-reply :
      (T : Formats D) (zero_mbps : D) (W : Type 0) (S : Socket W) (rounds : ℕ) (cmd : Bytes)
      (c : Client) (w : W) (result : Option (Acquired D)) (rest : Client × W)
      → acquire_reply T zero_mbps S (rpc S cmd c w) ≡ (inl result, rest)
      → acquire_rounds T zero_mbps S rounds cmd c w ≡ (result, rest)
  unfolding acquire_rounds after_reply
  acquire_rounds-reply T zero_mbps W S zero cmd c w result rest h =
      ap (λ x. after_reply T zero_mbps S x (λ y. (none, y))) h
  acquire_rounds-reply T zero_mbps W S (suc rounds) cmd c w result rest h =
      ap (λ x. after_reply T zero_mbps S x (λ y. acquire_rounds T zero_mbps S rounds cmd y.0 y.1)) h

  -- A client in an open session asks for a lease without a skip list: where the engine leases a row whose
  -- address and speed are words that fit into a line, and the speed can be read back, the client gets
  -- exactly that row's address with that speed, and the client, the daemon's connection and the engine
  -- are left with the same lease, however many rounds the client would wait.
  pub client_acquire-leases :
      (T : Formats D) (zero_mbps d : D) (probe : List Bytes → Option (List (Bytes × D)))
      (rounds : ℕ) (held : List Bytes) (buf : Bytes) (e e' : Engine D) (p : Proxy D)
      → acquire e [] ≡ (some p, e')
      → IsToken p.address
      → IsToken (T.fixed4 p.speed_mbps)
      → length p.address + length (T.fixed4 p.speed_mbps) + 4 ≤ k_ipc_max_line - 1
      → T.stod (T.fixed4 p.speed_mbps) ≡ some d
      → client_acquire T zero_mbps
          (daemon_socket T (outside_of probe))
          rounds
          []
          (client_of held)
          (conn_of held buf, e)
        ≡ (
          some (record { url = p.address; mbps = d }),
          (client_of (held ++ p.address ∷ []), (conn_of (held ++ p.address ∷ []) buf, e')),
        )
  unfolding client_acquire acquire_command
  client_acquire-leases T zero_mbps d probe rounds held buf e e' p h url_word speed_word fits read =
      let S = daemon_socket T (outside_of probe) in
      let text = take (k_ipc_max_line - 1) (lease_text p.address (T.fixed4 p.speed_mbps)) in
      acquire_rounds-reply T zero_mbps (Conn × Engine D) S rounds (codes "ACQUIRE") (client_of held)
        (conn_of held buf, e) _ _
        (ap (acquire_reply T zero_mbps S) (rpc-acquire T probe held buf e e' p h)
          ∙ acquire_reply-lease T zero_mbps (Conn × Engine D) S text p.address
              (T.fixed4 p.speed_mbps) d (client_of held) (conn_of (held ++ p.address ∷ []) buf, e')
              (split-lease_text (k_ipc_max_line - 1) p.address (T.fixed4 p.speed_mbps) url_word
                speed_word fits)
              read)
