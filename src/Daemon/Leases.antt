-- ===== src/Daemon/Leases.antt =====
-- No command leaks a lease: an address has no more leased rows than entries in the connections' lists.
use proxchunk.Prelude.{
  ℕ, ◌+◌, ◌≤◌, ◌≡◌, refl, Bool, true, false, not, ◌&&◌, Option, none, some, List, [], ◌∷◌, ◌++◌,
  arith, if◌then◌else◌, Bytes, bytes_eq, bytes_eq_iff,
}
use proxchunk.Ipc.{ipc_split}
use proxchunk.Engine.Rows.{Floats, Proxy, count, count-append, busy_at, HasDistinctRows}
use proxchunk.Engine.Acquire.{Leases, acquire-Leases}
use proxchunk.Engine.Release.{release-count}
use proxchunk.Engine.Target.{verify_target, verify_target-leases}
use proxchunk.Engine.{Engine, acquire, release}
use proxchunk.Daemon.{
  Formats, Conn, Outside, Handled, erase_one_held, greet, handle_target, grant, handle_acquire,
  let_go, handle_release, dispatch, handle_tokens, handle_line, release_all, skip_of, is_word,
  handle_stats,
}

-- How often a list of leases names an address.
abbrev pub held_at : Bytes → List Bytes → ℕ
held_at a = count (λ u. bytes_eq u a)

module _ {D : Type 0} where
  abbrev pub leased_at : Bytes → Engine D → ℕ
  leased_at a e = count (busy_at a) e.pool

  -- What a step of one connection keeps, whatever the others hold: no two rows have one address,
  -- and an address has no more leased rows than holders.
  abbrev pub Keeps : List Bytes → Engine D → List Bytes → Engine D → Type 0
  Keeps held e held' e' =
      HasDistinctRows e.pool
      → HasDistinctRows e'.pool
        × ((a : Bytes) (others : ℕ)
            → leased_at a e ≤ held_at a held + others
            → leased_at a e' ≤ held_at a held' + others)

  pub Keeps-same : (held : List Bytes) (e : Engine D) → Keeps held e held e
  Keeps-same held e d = (d, λ a others h. h)

  abbrev Good : Conn → Engine D → Handled D → Type 0
  Good c e r =
      Keeps c.held e r.conn.held r.engine × (r.conn.open_fd ≡ c.open_fd) × (r.conn.buf ≡ c.buf)

  same_good :
      (c : Conn) (e : Engine D)
      → Keeps c.held e c.held e × (c.open_fd ≡ c.open_fd) × (c.buf ≡ c.buf)
  same_good c e = (Keeps-same c.held e, refl, refl)

  pub Keeps-trans :
      (held : List Bytes) (e : Engine D) (held' : List Bytes) (e' : Engine D) (held'' : List Bytes)
      (e'' : Engine D)
      → Keeps held e held' e'
      → Keeps held' e' held'' e''
      → Keeps held e held'' e''
  Keeps-trans held e held' e' held'' e'' h k d =
      ((k (h d).0).0, λ a others n. (k (h d).0).1 a others ((h d).1 a others n))

  Good-if :
      (c : Conn) (e : Engine D) (b : Bool) (x y : Handled D)
      → Good c e x
      → Good c e y
      → Good c e (if b then x else y)
  Good-if c e true x y h k = h
  Good-if c e false x y h k = k

held_at-erase_one_held :
    (held : List Bytes) (url a : Bytes)
    → held_at a held ≤ held_at a (erase_one_held held url) + (if bytes_eq url a then 1 else 0)
unfolding erase_one_held
held_at-erase_one_held [] url a = omega arith
held_at-erase_one_held (u ∷ held) url a = ground (
  arith,
  held_at-erase_one_held held url a,
  bytes_eq_iff u url,
  bytes_eq_iff u a,
  bytes_eq_iff url a,
)

module _ {D : Type 0} ⦃F : Floats D⦄ where
  release-Keeps :
      (held : List Bytes) (e : Engine D) (url : Bytes) (success : Bool) (mbps : D)
      → Keeps held e (erase_one_held held url) (release e url success mbps)
  release-Keeps held e url success mbps d =
      let counts = release-count e url success mbps d in
      (
        (λ a. omega (arith, (counts a).1, d a)),
        λ a others h. ground (arith, (counts a).0, held_at-erase_one_held held url a),
      )

  grant-Good :
      (T : Formats D) (o : Outside D) (c : Conn) (e : Engine D) (r : Option (Proxy D) × Engine D)
      → Leases e r
      → Good c e (grant T o c r)
  unfolding grant
  grant-Good T o c e (none, e') h = rw h (same_good c e)
  grant-Good T o c e (some q, e') h =
      Good-if c e o.reply_sent _ _ (kept, refl, refl) (kept, refl, refl)
    where
      kept : Keeps c.held e (c.held ++ q.address ∷ []) e'
      kept d = (
        (λ a. omega (arith, d a, (h.1 a).1)),
        λ a others k.
            ground (arith, (h.1 a).0, count-append (λ u. bytes_eq u a) c.held (q.address ∷ [])),
      )

  greet-Good : (tok : List Bytes) (c : Conn) (e : Engine D) → Good c e (greet tok c e)
  unfolding greet
  greet-Good [] c e = same_good c e
  greet-Good (hello ∷ []) c e = same_good c e
  greet-Good (hello ∷ version ∷ []) c e =
      Good-if c e (is_word hello "HELLO" && is_word version "1") _ _ (same_good c e) (same_good c e)
  greet-Good (hello ∷ version ∷ w ∷ ws) c e = same_good c e

  let_go-Good :
      (T : Formats D) (url : Bytes) (success : Bool) (mbps : Option D) (c : Conn) (e : Engine D)
      → Good c e (let_go T url success mbps c e)
  let_go-Good T url success none c e = same_good c e
  let_go-Good T url success (some mbps) c e = (release-Keeps c.held e url success mbps, refl, refl)

  handle_target-Good :
      (T : Formats D) (o : Outside D) (args : List Bytes) (c : Conn) (e : Engine D)
      → Good c e (handle_target T o args c e)
  unfolding handle_target
  handle_target-Good T o [] c e = same_good c e
  handle_target-Good T o (url ∷ []) c e = (kept, refl, refl)
    where
      kept : Keeps c.held e c.held (verify_target e url o.probe).0
      kept d =
          let same = verify_target-leases e url o.probe in
          ((λ a. omega (arith, (same a).1, d a)), λ a others h. omega (arith, (same a).0, h))
  handle_target-Good T o (url ∷ w ∷ ws) c e = same_good c e

  handle_release-Good :
      (T : Formats D) (args : List Bytes) (c : Conn) (e : Engine D)
      → Good c e (handle_release T args c e)
  unfolding handle_release
  handle_release-Good T [] c e = same_good c e
  handle_release-Good T (url ∷ []) c e = same_good c e
  handle_release-Good T (url ∷ status ∷ []) c e = same_good c e
  handle_release-Good T (url ∷ status ∷ mbps ∷ []) c e =
      Good-if c e (not (is_word status "ok") && not (is_word status "fail")) _ _ (same_good c e)
        (let_go-Good T url (is_word status "ok") (T.stod mbps) c e)
  handle_release-Good T (url ∷ status ∷ mbps ∷ w ∷ ws) c e = same_good c e

  handle_acquire-Good :
      (T : Formats D) (o : Outside D) (stopping : Bool) (args : List Bytes) (c : Conn)
      (e : Engine D)
      → Good c e (handle_acquire T o stopping args c e)
  unfolding handle_acquire
  handle_acquire-Good T o stopping args c e =
      Good-if c e stopping _ _ (same_good c e)
        (grant-Good T o c e (acquire e (skip_of args)) (acquire-Leases e (skip_of args)))

  dispatch-Good :
      (T : Formats D) (o : Outside D) (stopping : Bool) (cmd : Bytes) (args : List Bytes) (c : Conn)
      (e : Engine D)
      → Good c e (dispatch T o stopping cmd args c e)
  unfolding dispatch handle_stats
  dispatch-Good T o stopping cmd args c e =
      let same = same_good c e in
      Good-if c e (is_word cmd "PING") _ _ same (
        Good-if c e (is_word cmd "TARGET") _ _ (handle_target-Good T o args c e) (
          Good-if c e (is_word cmd "STATS") _ _ same (
            Good-if c e (is_word cmd "ACQUIRE") _ _ (handle_acquire-Good T o stopping args c e) (
              Good-if c e (is_word cmd "RELEASE") _ _ (handle_release-Good T args c e)
                (Good-if c e (is_word cmd "STOP") _ _ same same)))))

  handle_tokens-Good :
      (T : Formats D) (o : Outside D) (stopping : Bool) (tok : List Bytes) (c : Conn) (e : Engine D)
      → Good c e (handle_tokens T o stopping tok c e)
  unfolding handle_tokens
  handle_tokens-Good T o stopping [] c e = same_good c e
  handle_tokens-Good T o stopping (cmd ∷ args) c e =
      Good-if c e (not c.greeted) _ _ (greet-Good (cmd ∷ args) c e)
        (dispatch-Good T o stopping cmd args c e)

  -- One command line, whatever its bytes and whatever meets it outside: rows whose addresses are
  -- distinct keep distinct addresses, and if an address has no more leased rows than holders, counting
  -- this connection's list and any number of other holders, then it still has no more. The
  -- connection's descriptor and buffer stay as they are.
  pub handle_line-Keeps :
      (T : Formats D) (o : Outside D) (stopping : Bool) (text : Bytes) (c : Conn) (e : Engine D)
      → let r = handle_line T o stopping text c e in
        Keeps c.held e r.conn.held r.engine × (r.conn.open_fd ≡ c.open_fd) × (r.conn.buf ≡ c.buf)
  unfolding handle_line
  handle_line-Keeps T o stopping text c e = handle_tokens-Good T o stopping (ipc_split text) c e

  pub release_all-Keeps : (e : Engine D) (urls : List Bytes) → Keeps urls e [] (release_all e urls)
  unfolding release_all
  release_all-Keeps e [] d = Keeps-same [] e d
  release_all-Keeps e (url ∷ urls) d =
      let counts = release-count e url false (F.lit 0 1) d in
      let later =
        release_all-Keeps (release e url false (F.lit 0 1)) urls
          (λ a. omega (arith, (counts a).1, d a)) in
      (later.0, λ a others h. later.1 a others (ground (arith, (counts a).0)))
