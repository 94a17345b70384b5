-- ===== src/Daemon.antt =====
-- The command handler and the connections of src/proxchunkd.cpp.
pub mod Protocol
pub mod Args
pub mod Control
pub mod Start
pub mod Leases
pub mod Accounts
pub mod Loop
mod Tests
use proxchunk.Prelude.{
  ◌-◌, String, Bool, true, false, not, ◌&&◌, Option, none, some, List, [], ◌∷◌, ◌++◌, if◌then◌else◌,
  take, Bytes, codes, bytes_eq, decimal,
}
use proxchunk.Ipc.{k_ipc_max_line, ipc_split}
use proxchunk.Engine.Rows.{Floats, Proxy}
use proxchunk.Engine.Target.{verify_target}
use proxchunk.Engine.{Engine, acquire, release, live, busy, top_mbps}

-- How doubles are written and read: `%.4f`, and `std::stod`, which throws where it is `none`.
pub record Formats (D : Type 0) : Type 0 where
  pub fixed4 : D → Bytes
  pub stod : Bytes → Option D

pub record Conn : Type 0 where
  pub open_fd : Bool
  pub buf : Bytes
  pub held : List Bytes
  pub greeted : Bool

pub data CmdResult : Type 0 where
  ok close stop_daemon : CmdResult

-- What one command meets outside the daemon: the transfers of a TARGET test, and whether the
-- reply to an ACQUIRE goes out. The results of all other writes are ignored.
pub record Outside (D : Type 0) : Type 0 where
  pub probe : List Bytes → Option (List (Bytes × D))
  pub reply_sent : Bool

pub record Handled (D : Type 0) : Type 0 where
  pub result : CmdResult
  pub reply : Option Bytes
  pub conn : Conn
  pub engine : Engine D

unfoldable pub erase_one_held : List Bytes → Bytes → List Bytes
erase_one_held [] url = []
erase_one_held (u ∷ held) url = if bytes_eq u url then held else u ∷ erase_one_held held url

abbrev pub is_word : Bytes → String → Bool
is_word t w = bytes_eq t (codes w)

-- `skip` and its URLs behind ACQUIRE.
unfoldable pub skip_of : List Bytes → List Bytes
skip_of [] = []
skip_of (t ∷ urls) = if is_word t "skip" then urls else []

module _ {D : Type 0} where
  abbrev says : CmdResult → Bytes → Conn → Engine D → Handled D
  says r text c e = record { result = r; reply = some text; conn = c; engine = e }

  -- Before HELLO 1 nothing else is answered.
  unfoldable pub greet : List Bytes → Conn → Engine D → Handled D
  greet (hello ∷ version ∷ []) c e =
      if is_word hello "HELLO" && is_word version "1"
      then says ok (codes "OK 1 proxchunkd 1.1") (record c { greeted = true }) e
      else says close (codes "ERR protocol") c e
  greet tok c e = says close (codes "ERR protocol") c e

module _ {D : Type 0} ⦃F : Floats D⦄ (T : Formats D) where
  unfoldable pub handle_target : Outside D → List Bytes → Conn → Engine D → Handled D
  handle_target o (url ∷ []) c e =
      let (e', n) = verify_target e url o.probe in says ok (codes "OK " ++ decimal n) c e'
  handle_target o args c e = says close (codes "ERR protocol") c e

  -- `snprintf` keeps as much of the text as fits into `char buf[128]`.
  unfoldable pub handle_stats : Conn → Engine D → Handled D
  handle_stats c e =
      let text =
        codes "OK live="
        ++ (decimal (live e)
            ++ (codes " busy="
                ++ (decimal (busy e) ++ (codes " top_mbps=" ++ T.fixed4 (top_mbps e))))) in
      says ok (take 127 text) c e

  -- What is done with the result of `engine.acquire`.
  unfoldable pub grant : Outside D → Conn → Option (Proxy D) × Engine D → Handled D
  grant o c (none, e) = says ok (codes "ERR empty") c e
  grant o c (some p, e) =
      let held = record c { held = c.held ++ p.address ∷ [] } in
      let text =
        take (k_ipc_max_line - 1)
          (codes "OK " ++ (p.address ++ (codes " " ++ T.fixed4 p.speed_mbps))) in
      if o.reply_sent then says ok text held e else says close text held e

  unfoldable pub handle_acquire : Outside D → Bool → List Bytes → Conn → Engine D → Handled D
  unfolding skip_of grant
  handle_acquire o stopping args c e =
      if stopping
      then says ok (codes "ERR shutting-down") c e
      else grant o c (acquire e (skip_of args))

  abbrev pub let_go : Bytes → Bool → Option D → Conn → Engine D → Handled D
  let_go url success none c e = says close (codes "ERR protocol") c e
  let_go url success (some mbps) c e =
      says ok (codes "OK") (record c { held = erase_one_held c.held url })
        (release e url success mbps)

  unfoldable pub handle_release : List Bytes → Conn → Engine D → Handled D
  handle_release (url ∷ status ∷ mbps ∷ []) c e =
      if not (is_word status "ok") && not (is_word status "fail")
      then says close (codes "ERR protocol") c e
      else let_go url (is_word status "ok") (T.stod mbps) c e
  handle_release args c e = says close (codes "ERR protocol") c e

  -- A greeted connection: the command and its arguments.
  unfoldable pub dispatch : Outside D → Bool → Bytes → List Bytes → Conn → Engine D → Handled D
  unfolding handle_target handle_stats handle_acquire handle_release
  dispatch o stopping cmd args c e =
      if is_word cmd "PING"
      then says ok (codes "OK pong") c e
      else if is_word cmd "TARGET"
      then handle_target o args c e
      else if is_word cmd "STATS"
      then handle_stats c e
      else if is_word cmd "ACQUIRE"
      then handle_acquire o stopping args c e
      else if is_word cmd "RELEASE"
      then handle_release args c e
      else if is_word cmd "STOP"
      then says stop_daemon (codes "OK shutting-down") c e
      else says ok (codes "ERR unknown") c e

  unfoldable pub handle_tokens : Outside D → Bool → List Bytes → Conn → Engine D → Handled D
  unfolding dispatch greet
  handle_tokens o stopping [] c e = record { result = ok; reply = none; conn = c; engine = e }
  handle_tokens o stopping (cmd ∷ args) c e =
      if not c.greeted then greet (cmd ∷ args) c e else dispatch o stopping cmd args c e

  unfoldable pub handle_line : Outside D → Bool → Bytes → Conn → Engine D → Handled D
  unfolding handle_tokens
  handle_line o stopping text c e = handle_tokens o stopping (ipc_split text) c e

module _ {D : Type 0} ⦃F : Floats D⦄ where
  unfoldable pub release_all : Engine D → List Bytes → Engine D
  release_all e [] = e
  release_all e (url ∷ urls) = release_all (release e url false (F.lit 0 1)) urls

  unfoldable pub drop_conn : Conn → Engine D → Conn × Engine D
  unfolding release_all
  drop_conn c e = (record c { held = []; open_fd = false }, release_all e c.held)
