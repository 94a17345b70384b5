-- ===== src/Client/Calls/Answers.antt =====
-- What stats and set_target read is what the daemon says, over one connection.
use proxchunk.Prelude.{
  ℕ, suc, ◌≤◌, ◌≡◌, refl, ap, ◌∙◌, true, false, Option, some, List, [], ◌∷◌, ◌++◌, arith, leb,
  length, All, Bytes, codes, bytes_eq, contains_byte, decimal, IsDigit, decimal_from,
  decimal_from-IsDigit, strtol-decimal,
}
use proxchunk.Ipc.{ipc_split}
use proxchunk.Ipc.Split.{IsToken, join, ipc_split-join}
use proxchunk.Engine.Rows.{Floats}
use proxchunk.Engine.{Engine, live, busy, top_mbps}
use proxchunk.Daemon.{Formats, Conn, handle_stats, dispatch, handle_tokens, handle_line}
use proxchunk.Client.{Client, rpc, rpc_from, retry}
use proxchunk.Client.Session.{Wire, take_all, client_of, conn_of, daemon_socket}
use proxchunk.Client.Calls.{ProxyStats, stoul, at_equals, add_stats, client_stats, stats_reply}

no_space-append :
    (s t : Bytes)
    → contains_byte b' ' s ≡ false
    → contains_byte b' ' t ≡ false
    → contains_byte b' ' (s ++ t) ≡ false
unfolding contains_byte
no_space-append [] t hs ht = ht
no_space-append (c ∷ s) t hs ht = ground (arith, hs, no_space-append s t)

digits-no_space : (s : Bytes) → All IsDigit s → contains_byte b' ' s ≡ false
unfolding contains_byte
digits-no_space [] all = refl
digits-no_space (c ∷ s) all = ground (arith, all.0, digits-no_space s all.1)

decimal-no_space : (n : ℕ) → contains_byte b' ' (decimal n) ≡ false
unfolding decimal
decimal-no_space n =
    digits-no_space (decimal_from (suc n) n) (decimal_from-IsDigit (suc n) n (omega arith))

stoul-decimal : (n : ℕ) → n ≤ 18446744073709551615 → stoul (decimal n) ≡ some n
stoul-decimal n h =
    let fits : leb n 18446744073709551615 ≡ true = ground (arith, h) in
    rw (strtol-decimal n, stoul, fits) refl

module _ {D : Type 0} ⦃F : Floats D⦄ where
  -- What the daemon writes for STATS.
  abbrev pub stats_words : Formats D → Engine D → List Bytes
  stats_words T e =
      codes "OK"
      ∷ (codes "live=" ++ decimal (live e))
      ∷ (codes "busy=" ++ decimal (busy e))
      ∷ (codes "top_mbps=" ++ T.fixed4 (top_mbps e))
      ∷ []

  stats_words-IsToken :
      (T : Formats D) (e : Engine D)
      → IsToken (T.fixed4 (top_mbps e))
      → All IsToken (stats_words T e)
  unfolding contains_byte
  stats_words-IsToken T e word = (
    record { full = refl; no_space = refl },
    (
      record { full = refl; no_space = decimal-no_space (live e) },
      (
        record { full = refl; no_space = decimal-no_space (busy e) },
        (record { full = refl; no_space = word.no_space }, tt),
      ),
    ),
  )

  pub stats_exchange :
      (T : Formats D) (o : Wire D) (held : List Bytes) (buf : Bytes) (e : Engine D)
      → length (join (stats_words T e)) ≤ 127
      → (daemon_socket T o).exchange (codes "STATS") (conn_of held buf, e)
        ≡ (some (join (stats_words T e)), (conn_of held buf, e))
  unfolding handle_line handle_tokens dispatch handle_stats ipc_split bytes_eq contains_byte
  stats_exchange T o held buf e fits =
      ap (λ (text : Bytes). (some text, (conn_of held buf, e)))
        (take_all 127 (join (stats_words T e)) fits)

  rpc-stats :
      (T : Formats D) (o : Wire D) (held : List Bytes) (buf : Bytes) (e : Engine D)
      → length (join (stats_words T e)) ≤ 127
      → rpc (daemon_socket T o) (codes "STATS") (client_of held) (conn_of held buf, e)
        ≡ (some (join (stats_words T e)), (client_of held, (conn_of held buf, e)))
  unfolding rpc rpc_from retry
  rpc-stats T o held buf e fits =
      ap
        (λ (x : Option Bytes × (Conn × Engine D)).
          retry (daemon_socket T o) (codes "STATS") (x.0, (client_of held, x.1)))
        (stats_exchange T o held buf e fits)

  pub stats_reply-words :
      (T : Formats D) (zero_mbps d : D) (e : Engine D)
      → live e ≤ 18446744073709551615
      → busy e ≤ 18446744073709551615
      → IsToken (T.fixed4 (top_mbps e))
      → T.stod (T.fixed4 (top_mbps e)) ≡ some d
      → stats_reply T zero_mbps (some (join (stats_words T e)))
        ≡ some (record { stat_live = live e; stat_busy = busy e; stat_top = d })
  unfolding add_stats at_equals bytes_eq
  stats_reply-words T zero_mbps d e live_fits busy_fits word read =
      rw
        (
          ipc_split-join (stats_words T e) (stats_words-IsToken T e word),
          stoul-decimal (live e) live_fits,
          stoul-decimal (busy e) busy_fits,
          read,
        )
        refl

  -- What the daemon says of its engine is what a client reads: where the counts fit into a size_t, the
  -- text into the daemon's buffer, and the top speed is written as one word that is read back as d, stats returns the numbers of live and of busy
  -- rows and d, and changes neither the client nor the daemon.
  client_stats-live :
      (T : Formats D) (o : Wire D) (zero_mbps d : D) (held : List Bytes) (buf : Bytes)
      (e : Engine D)
      → live e ≤ 18446744073709551615
      → busy e ≤ 18446744073709551615
      → length (join (stats_words T e)) ≤ 127
      → IsToken (T.fixed4 (top_mbps e))
      → T.stod (T.fixed4 (top_mbps e)) ≡ some d
      → client_stats (daemon_socket T o) T zero_mbps (client_of held) (conn_of held buf, e) ≡ (
        some (record { stat_live = live e; stat_busy = busy e; stat_top = d }),
        (client_of held, (conn_of held buf, e)),
      )
  unfolding client_stats
  client_stats-live T o zero_mbps d held buf e live_fits busy_fits text_fits word read =
      ap (λ (x : Option Bytes × (Client × (Conn × Engine D))). (stats_reply T zero_mbps x.0, x.1))
        (rpc-stats T o held buf e text_fits)
      ∙ ap (λ (s : Option (ProxyStats D)). (s, (client_of held, (conn_of held buf, e))))
          (stats_reply-words T zero_mbps d e live_fits busy_fits word read)

  -- What the daemon does with TARGET, and writes.
  abbrev targeted : Bytes → Engine D × ℕ → Bytes → List Bytes → Option Bytes × (Conn × Engine D)
  targeted url (e, n) buf held = (some (codes "OK " ++ decimal n), (conn_of held buf, e))
