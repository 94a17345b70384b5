-- ===== src/Client/Calls/Status.antt =====
-- cmd_status of src/proxchunkd.cpp, a client of the server, and what it prints.
use proxchunk.Prelude.{
  ℕ, ◌≤◌, ◌≡◌, refl, ap, ◌∙◌, Bool, true, false, Option, none, some, [], ◌++◌, length, Bytes, codes,
  bytes_eq, starts_with, contains_byte, decimal,
}
use proxchunk.Ipc.Split.{IsToken, join}
use proxchunk.Ipc.{ipc_split}
use proxchunk.Engine.Rows.{Floats}
use proxchunk.Engine.{Engine, live, busy, top_mbps}
use proxchunk.Daemon.{Formats, Conn, greet, dispatch, handle_tokens, handle_line}
use proxchunk.Client.{Socket, Client, hello, rpc, rpc_from, retry}
use proxchunk.Client.Session.{Wire, client_of, conn_of, daemon_socket}
use proxchunk.Client.Calls.{ProxyStats, stats_reply, client_stats}
use proxchunk.Client.Calls.Answers.{stats_words, stats_exchange, stats_reply-words}

module _ {D : Type 0} (T : Formats D) where
  abbrev status_text : ProxyStats D → Bytes
  status_text s =
      codes "live="
      ++ (decimal s.stat_live
          ++ (codes " busy="
              ++ (decimal s.stat_busy
                  ++ (codes " top_mbps=" ++ (T.fixed4 s.stat_top ++ codes "\n")))))

  -- The exit code, and what goes to the standard output.
  abbrev printed : Option (ProxyStats D) → ℕ × Bytes
  printed none = (1, [])
  printed (some s) = (0, status_text s)

  abbrev asked_stats : {W : Type 0} → Option (ProxyStats D) × (Client × W) → (ℕ × Bytes) × W
  asked_stats (s, (c, w)) = (printed s, w)

  module _ {W : Type 0} (S : Socket W) where
    abbrev greeted_status : D → Bool × (Client × W) → (ℕ × Bytes) × W
    greeted_status zero_mbps (false, (c, w)) = ((1, []), w)
    greeted_status zero_mbps (true, (c, w)) = asked_stats (client_stats S T zero_mbps c w)

    abbrev connected_status : D → Bool × W → (ℕ × Bytes) × W
    connected_status zero_mbps (false, w) = ((1, []), w)
    connected_status zero_mbps (true, w) = greeted_status zero_mbps (hello S (client_of []) w)

    pub cmd_status : D → W → (ℕ × Bytes) × W
    cmd_status zero_mbps w = connected_status zero_mbps (S.connect w)

module _ {D : Type 0} ⦃F : Floats D⦄ where
  -- The daemon behind its listening socket: a connection is a new one.
  abbrev pub listening_socket : Formats D → Wire D → Socket (Conn × Engine D)
  listening_socket T o = record {
    connect = λ w. (true, (record { open_fd = true; buf = []; held = []; greeted = false }, w.1));
    exchange = (daemon_socket T o).exchange;
  }

  hello-listening :
      (T : Formats D) (o : Wire D) (e : Engine D)
      → hello
          (listening_socket T o)
          (client_of [])
          (record { open_fd = true; buf = []; held = []; greeted = false }, e)
        ≡ (true, (client_of [], (conn_of [] [], e)))
  unfolding hello starts_with handle_line handle_tokens dispatch greet ipc_split bytes_eq
      contains_byte
  hello-listening T o e = refl

  client_stats-listening :
      (T : Formats D) (o : Wire D) (zero_mbps : D) (e : Engine D)
      → length (join (stats_words T e)) ≤ 127
      → client_stats (listening_socket T o) T zero_mbps (client_of []) (conn_of [] [], e) ≡ (
        stats_reply T zero_mbps (some (join (stats_words T e))),
        (client_of [], (conn_of [] [], e)),
      )
  unfolding client_stats rpc rpc_from retry
  client_stats-listening T o zero_mbps e fits = rw (stats_exchange T o [] [] e fits) refl

  -- Where a server listens, --status prints what its engine says, ends with 0, and changes nothing in the
  -- engine: the numbers of live and of busy rows, where a size_t holds them, and the top speed d that is
  -- read back from what the server wrote, if that is one word, and if the whole reply fits into the 127
  -- characters of the server's buffer.
  pub cmd_status-live :
      (T : Formats D) (o : Wire D) (zero_mbps d : D) (c : Conn) (e : Engine D)
      → live e ≤ 18446744073709551615
      → busy e ≤ 18446744073709551615
      → length (join (stats_words T e)) ≤ 127
      → IsToken (T.fixed4 (top_mbps e))
      → T.stod (T.fixed4 (top_mbps e)) ≡ some d
      → cmd_status T (listening_socket T o) zero_mbps (c, e) ≡ (
        (0, status_text T (record { stat_live = live e; stat_busy = busy e; stat_top = d })),
        (conn_of [] [], e),
      )
  unfolding cmd_status
  cmd_status-live T o zero_mbps d c e live_fits busy_fits text_fits word read =
      ap (greeted_status T (listening_socket T o) zero_mbps) (hello-listening T o e)
      ∙ ap (asked_stats T) (client_stats-listening T o zero_mbps e text_fits)
      ∙ ap (λ (s : Option (ProxyStats D)). (printed T s, (conn_of [] [], e)))
          (stats_reply-words T zero_mbps d e live_fits busy_fits word read)
