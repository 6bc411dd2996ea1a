-- ===== src/ServerManager/Forgotten.antt =====
-- What a connection that is dropped leaves behind.
use left_hook_roll.Table.{has_key, find_key}
use left_hook_roll.ServerManager.Tends.{Tends}
use left_hook_roll.ServerManager.State.{ServerManager, Pointer}
use left_hook_roll.Prelude.{[], ◌∷◌, ◌++◌, ◌≢◌, false, some, none, ◌≡◌, List, ℕ}

-- Nothing of the descriptor `fd` or the object at `p` is left, and `fd` has been closed.
pub record IsForgotten (fd : ℕ) (p : Pointer) (closed : List ℕ) (s : ServerManager) : Type 0 where
  pub no_connection : find_key fd s.connections ≡ none
  pub no_events : find_key fd s.fd_events ≡ none
  pub deleted : find_key p s.clients ≡ none
  pub dequeued : has_key p s.processing_set ≡ false
  pub no_pipe : (pipe : ℕ) → find_key pipe s.cgi_pipe_to_conn ≢ some p
  pub last_closed : s.closed ≡ closed ++ (fd ∷ [])
