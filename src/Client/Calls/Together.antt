-- ===== src/Client/Calls/Together.antt =====
-- These calls and the daemon's command handler together, over one connection.
use proxchunk.Prelude.{
  String, ◌≡◌, refl, ap, ◌∙◌, false, ◌||◌, Option, some, List, [], ◌∷◌, arith, is_empty, All, Bytes,
  codes, bytes_eq, bytes_eq_refl, contains_byte,
}
use proxchunk.Ipc.{ipc_split}
use proxchunk.Ipc.Split.{IsToken, ipc_split-join}
use proxchunk.Engine.Rows.{Floats}
use proxchunk.Engine.{Engine, release}
use proxchunk.Daemon.{
  Formats, Conn, erase_one_held, let_go, handle_release, dispatch, handle_tokens, handle_line,
  release_all, drop_conn,
}
use proxchunk.Client.Session.{
  Wire, IsSent, sent_exchange, client_of, conn_of, answered, daemon_socket,
}
use proxchunk.Client.Calls.{fail_command, release_held, destroy}

erase_first : (url : Bytes) (held : List Bytes) → erase_one_held (url ∷ held) url ≡ held
unfolding erase_one_held
erase_first url held = rw (bytes_eq_refl url) refl

literal-IsToken :
    (w : String) → (is_empty (codes w) || contains_byte b' ' (codes w)) ≡ false → IsToken (codes w)
literal-IsToken w h = record { full = ground (arith, h); no_space = ground (arith, h) }

fail_words :
    (url : Bytes)
    → IsToken url
    → ipc_split (fail_command url) ≡ codes "RELEASE" ∷ url ∷ codes "fail" ∷ codes "0" ∷ []
unfolding contains_byte
fail_words url word = ipc_split-join (codes "RELEASE" ∷ url ∷ codes "fail" ∷ codes "0" ∷ []) (
  literal-IsToken "RELEASE" refl,
  (word, (literal-IsToken "fail" refl, (literal-IsToken "0" refl, tt))),
)

-- A URL that a RELEASE can name: one word, in a command that is a line and fits.
pub record IsReleased (url : Bytes) : Type 0 where
  pub word : IsToken url
  pub sent : IsSent (fail_command url)

module _ {D : Type 0} ⦃F : Floats D⦄ where
  release_exchange :
      (T : Formats D) (o : Wire D) (url : Bytes) (held : List Bytes) (buf : Bytes) (e : Engine D)
      → IsReleased url
      → T.stod (codes "0") ≡ some (F.lit 0 1)
      → (daemon_socket T o).exchange (fail_command url) (conn_of (url ∷ held) buf, e)
        ≡ (some (codes "OK"), (conn_of held buf, release e url false (F.lit 0 1)))
  unfolding handle_line handle_tokens dispatch handle_release bytes_eq erase_one_held
  release_exchange T o url held buf e word zero_read =
      let c = conn_of (url ∷ held) buf in
      sent_exchange T o (fail_command url) (url ∷ held) buf e word.sent
      ∙ ap (λ tok. answered (handle_tokens T o.outside false tok c e)) (fail_words url word.word)
      ∙ ap (λ r. answered (let_go T url false r c e)) zero_read
      ∙ ap
          (λ (rest : List Bytes).
            (some (codes "OK"), (conn_of rest buf, release e url false (F.lit 0 1))))
          (erase_first url held)

  release_held-together :
      (T : Formats D) (o : Wire D) (held : List Bytes) (buf : Bytes) (e : Engine D)
      → All IsReleased held
      → T.stod (codes "0") ≡ some (F.lit 0 1)
      → release_held (daemon_socket T o) held (conn_of held buf, e)
        ≡ (conn_of [] buf, release_all e held)
  unfolding release_held release_all
  release_held-together T o [] buf e words zero_read = refl
  release_held-together T o (url ∷ held) buf e (word, words) zero_read =
      ap (λ (r : Option Bytes × (Conn × Engine D)). release_held (daemon_socket T o) held r.1)
        (release_exchange T o url held buf e word zero_read)
      ∙ release_held-together T o held buf (release e url false (F.lit 0 1)) words zero_read

  -- A client that ends in good order, with leases whose URLs fit into a RELEASE, gives them back exactly
  -- as the daemon does when the connection breaks: the engine is the same in both cases, and the
  -- connection holds nothing.
  pub destroy-drop_conn :
      (T : Formats D) (o : Wire D) (held : List Bytes) (buf : Bytes) (e : Engine D)
      → All IsReleased held
      → T.stod (codes "0") ≡ some (F.lit 0 1)
      → destroy (daemon_socket T o) (client_of held) (conn_of held buf, e)
        ≡ (conn_of [] buf, (drop_conn (conn_of held buf) e).1)
  unfolding destroy drop_conn
  destroy-drop_conn T o held buf e words zero_read =
      release_held-together T o held buf e words zero_read
