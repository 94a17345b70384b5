-- ===== src/Daemon/Accounts.antt =====
-- A command and the leases: they follow the lists of the connections, but for a RELEASE.
use proxchunk.Prelude.{
  ◌+◌, ◌≡◌, refl, sym, ap, subst, ◌⊎◌, inl, inr, Bool, true, false, not, ◌&&◌, Option, none, some,
  List, [], ◌∷◌, ◌++◌, arith, if◌then◌else◌, Bool-cases, Bytes, codes, bytes_eq, bytes_eq_iff,
}
use proxchunk.Engine.Rows.{Floats, Proxy, count-append, HasDistinctRows}
use proxchunk.Engine.Acquire.{Leases, acquire-Leases}
use proxchunk.Engine.Release.{release-count}
use proxchunk.Engine.Target.{verify_target-leases}
use proxchunk.Engine.{Engine, acquire}
use proxchunk.Daemon.{
  Formats, Conn, Outside, Handled, erase_one_held, greet, handle_target, grant, handle_acquire,
  let_go, handle_release, dispatch, handle_tokens, handle_line, skip_of, is_word, handle_stats,
}
use proxchunk.Ipc.{ipc_split}
use proxchunk.Daemon.Leases.{held_at, leased_at, Keeps, handle_line-Keeps}

-- The words of a RELEASE of this URL.
abbrev IsRelease : List Bytes → Bytes → Type 0
IsRelease tok url =
    (status : Bytes) × (mbps : Bytes) × (tok ≡ codes "RELEASE" ∷ url ∷ status ∷ mbps ∷ [])

module _ {D : Type 0} where
  -- The leased rows of an address change as the connection's list does, or the words release it, and
  -- then no row of it is leased.
  abbrev pub Follows : List Bytes → Conn → Engine D → Handled D → Bytes → Type 0
  Follows tok c e r a =
      (leased_at a r.engine + held_at a c.held ≡ leased_at a e + held_at a r.conn.held)
      ⊎ (IsRelease tok a × (leased_at a r.engine ≡ 0))

  Follows-if :
      (tok : List Bytes) (c : Conn) (e : Engine D) (a : Bytes) (b : Bool) (x y : Handled D)
      → (b ≡ true → Follows tok c e x a)
      → Follows tok c e y a
      → Follows tok c e (if b then x else y) a
  Follows-if tok c e a true x y h k = h refl
  Follows-if tok c e a false x y h k = k

held_at-erase_other :
    (held : List Bytes) (url a : Bytes)
    → bytes_eq url a ≡ false
    → held_at a (erase_one_held held url) ≡ held_at a held
unfolding erase_one_held
held_at-erase_other [] url a other = refl
held_at-erase_other (u ∷ held) url a other = ground (
  arith,
  other,
  held_at-erase_other held url a other,
  bytes_eq_iff u url,
  bytes_eq_iff u a,
  bytes_eq_iff url a,
)

module _ {D : Type 0} ⦃F : Floats D⦄ where
  let_go-Follows :
      (T : Formats D) (url status mbps : Bytes) (success : Bool) (read : Option D) (c : Conn)
      (e : Engine D)
      → HasDistinctRows e.pool
      → (a : Bytes)
      → Follows (codes "RELEASE" ∷ url ∷ status ∷ mbps ∷ []) c e (let_go T url success read c e) a
  let_go-Follows T url status mbps success none c e d a = inl refl
  let_go-Follows T url status mbps success (some v) c e d a =
      let counts = (release-count e url success v d a).0 in
      elim (Bool-cases (bytes_eq url a)) [
        | inl same ↦
            let url_a : url ≡ a = (bytes_eq_iff url a).0 same in
            inr (
              (status, mbps, ap (λ u. codes "RELEASE" ∷ u ∷ status ∷ mbps ∷ []) url_a),
              ground (arith, counts, same),
            )
        | inr other ↦ inl (ground (arith, counts, other, held_at-erase_other c.held url a other))
      ]

  handle_release-Follows :
      (T : Formats D) (args : List Bytes) (c : Conn) (e : Engine D)
      → HasDistinctRows e.pool
      → (a : Bytes) → Follows (codes "RELEASE" ∷ args) c e (handle_release T args c e) a
  unfolding handle_release
  handle_release-Follows T [] c e d a = inl refl
  handle_release-Follows T (url ∷ []) c e d a = inl refl
  handle_release-Follows T (url ∷ status ∷ []) c e d a = inl refl
  handle_release-Follows T (url ∷ status ∷ mbps ∷ []) c e d a =
      Follows-if _ c e a (not (is_word status "ok") && not (is_word status "fail")) _ _
        (λ _. inl refl)
        (let_go-Follows T url status mbps (is_word status "ok") (T.stod mbps) c e d a)
  handle_release-Follows T (url ∷ status ∷ mbps ∷ w ∷ ws) c e d a = inl refl

  grant-Follows :
      (T : Formats D) (o : Outside D) (tok : List Bytes) (c : Conn) (e : Engine D)
      (r : Option (Proxy D) × Engine D)
      → Leases e r
      → (a : Bytes) → Follows tok c e (grant T o c r) a
  unfolding grant
  grant-Follows T o tok c e (none, e') h a =
      inl (ap (λ (x : Engine D). leased_at a x + held_at a c.held) h)
  grant-Follows T o tok c e (some q, e') h a =
      Follows-if tok c e a o.reply_sent _ _ (λ _. inl moved) (inl moved)
    where
      moved :
          leased_at a e' + held_at a c.held ≡ leased_at a e + held_at a (c.held ++ q.address ∷ [])
      moved = ground (arith, (h.1 a).0, count-append (λ u. bytes_eq u a) c.held (q.address ∷ []))

  handle_target-Follows :
      (T : Formats D) (o : Outside D) (tok args : List Bytes) (c : Conn) (e : Engine D) (a : Bytes)
      → Follows tok c e (handle_target T o args c e) a
  unfolding handle_target
  handle_target-Follows T o tok [] c e a = inl refl
  handle_target-Follows T o tok (url ∷ []) c e a =
      inl (ap (λ n. n + held_at a c.held) (verify_target-leases e url o.probe a).0)
  handle_target-Follows T o tok (url ∷ w ∷ ws) c e a = inl refl

  greet-Follows :
      (tok : List Bytes) (c : Conn) (e : Engine D) (a : Bytes) → Follows tok c e (greet tok c e) a
  unfolding greet
  greet-Follows [] c e a = inl refl
  greet-Follows (hello ∷ []) c e a = inl refl
  greet-Follows (hello ∷ version ∷ []) c e a =
      Follows-if _ c e a (is_word hello "HELLO" && is_word version "1") _ _ (λ _. inl refl)
        (inl refl)
  greet-Follows (hello ∷ version ∷ w ∷ ws) c e a = inl refl

  dispatch-Follows :
      (T : Formats D) (o : Outside D) (stopping : Bool) (cmd : Bytes) (args : List Bytes) (c : Conn)
      (e : Engine D)
      → HasDistinctRows e.pool
      → (a : Bytes) → Follows (cmd ∷ args) c e (dispatch T o stopping cmd args c e) a
  unfolding dispatch handle_stats handle_acquire
  dispatch-Follows T o stopping cmd args c e d a =
      let tok = cmd ∷ args in
      let or_else = Follows-if tok c e a in
      or_else (is_word cmd "PING") _ _ (λ _. inl refl)
        (or_else (is_word cmd "TARGET") _ _ (λ _. handle_target-Follows T o tok args c e a)
          (or_else (is_word cmd "STATS") _ _ (λ _. inl refl)
            (or_else (is_word cmd "ACQUIRE") _ _
              (λ _.
                or_else stopping _ _ (λ _. inl refl)
                  (grant-Follows T o tok c e (acquire e (skip_of args))
                    (acquire-Leases e (skip_of args)) a))
              (or_else (is_word cmd "RELEASE") _ _
                (λ is_release.
                  subst (λ w. Follows (w ∷ args) c e (handle_release T args c e) a)
                    (sym ((bytes_eq_iff cmd (codes "RELEASE")).0 is_release))
                    (handle_release-Follows T args c e d a))
                (or_else (is_word cmd "STOP") _ _ (λ _. inl refl) (inl refl))))))

  handle_tokens-Follows :
      (T : Formats D) (o : Outside D) (stopping : Bool) (tok : List Bytes) (c : Conn) (e : Engine D)
      → HasDistinctRows e.pool
      → (a : Bytes) → Follows tok c e (handle_tokens T o stopping tok c e) a
  unfolding handle_tokens
  handle_tokens-Follows T o stopping [] c e d a = inl refl
  handle_tokens-Follows T o stopping (cmd ∷ args) c e d a =
      Follows-if (cmd ∷ args) c e a (not c.greeted) _ _ (λ _. greet-Follows (cmd ∷ args) c e a)
        (dispatch-Follows T o stopping cmd args c e d a)

  -- One command line on rows with distinct addresses, whatever its bytes and whatever meets it outside.
  -- For each address the number of its leased rows changes exactly as the number of its entries in the
  -- connection's list does, or the line is a RELEASE of the address with a status and a speed, and then no
  -- row of it is leased. The addresses stay distinct; an address that has no more leased rows than holders,
  -- counting this connection's list and any number of others, still has no more; and the descriptor
  -- and the buffer stay as they are.
  pub handle_line-Follows :
      (T : Formats D) (o : Outside D) (stopping : Bool) (text : Bytes) (c : Conn) (e : Engine D)
      → HasDistinctRows e.pool
      → let r = handle_line T o stopping text c e in
        ((a : Bytes) → Follows (ipc_split text) c e r a)
        × Keeps c.held e r.conn.held r.engine
        × (r.conn.open_fd ≡ c.open_fd)
        × (r.conn.buf ≡ c.buf)
  unfolding handle_line
  handle_line-Follows T o stopping text c e d =
      let (keeps, fd, buf) = handle_line-Keeps T o stopping text c e in
      (handle_tokens-Follows T o stopping (ipc_split text) c e d, keeps, fd, buf)
