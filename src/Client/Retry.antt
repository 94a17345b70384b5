-- ===== src/Client/Retry.antt =====
-- rpc: a failed exchange is tried again only where no lease can be lost by it.
use proxchunk.Prelude.{Bytes, Bool, true, Option, none, some, List, ◌∷◌, ◌≡◌, refl}
use proxchunk.Client.{Socket, Client, once, retry, rpc_from, rpc}

-- A connected client that holds at least one lease.
abbrev holding : Bool → Bytes → List Bytes → Client
holding has_path u us = record { connected = true; has_path = has_path; held = u ∷ us }

module _ {W : Type 0} (S : Socket W) where
  retry-held :
      (cmd : Bytes) (has_path : Bool) (u : Bytes) (us : List Bytes) (reply : Option Bytes) (w : W)
      → retry S cmd (reply, (holding has_path u us, w)) ≡ (reply, (holding has_path u us, w))
  unfolding retry
  retry-held cmd has_path u us none w = refl
  retry-held cmd has_path u us (some reply) w = refl

  -- On an open connection with a lease held, a call is one exchange, whatever comes of it: there is no
  -- new connection, which would free the leases, and the client's state stays as it is.
  rpc-held :
      (cmd : Bytes) (has_path : Bool) (u : Bytes) (us : List Bytes) (w : W)
      → rpc S cmd (holding has_path u us) w ≡ once S cmd (holding has_path u us) w
  unfolding rpc rpc_from
  rpc-held cmd has_path u us w =
      retry-held cmd has_path u us (S.exchange cmd w).0 (S.exchange cmd w).1
