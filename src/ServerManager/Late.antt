-- ===== src/ServerManager/Late.antt =====
-- `_sweepTimeouts` on a connection that has been idle for too long.
use left_hook_roll.Connection.{has_timed_out}
use left_hook_roll.ServerManager.State.{Client, Pointer, ServerManager}
use left_hook_roll.Table.{Table, find_key}
use left_hook_roll.Response.State.{Site}
use left_hook_roll.Prelude.{◌≡◌, true, none, some, Option, List, ℕ}
use left_hook_roll.Prelude.Members.{In}
use left_hook_roll.ServerManager.Idle.{Among}
use left_hook_roll.ServerManager.Timeouts.{fd_if, timed_out, connection_timeout_s}

module _ (site : Site) (s : ServerManager) (fd : ℕ) (p : Pointer) (c : Client)
    (owned : find_key fd s.connections ≡ some p) (alive : find_key p s.clients ≡ some c)
    (late : has_timed_out site connection_timeout_s c.connection ≡ true)
    (all_alive : (k : ℕ) (q : Pointer)
      → find_key k s.connections ≡ some q
      → (b : Client) × (find_key q s.clients ≡ some b)) where
  -- The list is complete, and holds the connection if the keys hold its descriptor.
  record Found (keys : List ℕ) : Type 0 where
    fds : List ℕ
    found : timed_out site s keys ≡ some fds
    listed : In fd keys → Among s.connections fds p

  -- The part of `timed_out` for a descriptor.
  entry : ℕ → Option Pointer → Option (List ℕ) → Option (List ℕ)
  entry k o rest = elim o [
    | none ↦ rest
    | some q ↦ elim (find_key q s.clients) [
      | none ↦ none
      | some b ↦ fd_if site (has_timed_out site connection_timeout_s b.connection) k rest
    ]
  ]
