-- ===== src/ServerManager/Sound.antt =====
-- Pointers of the manager: none of them outlives its Connection.
pub mod Objects
use mathlib.Core.Path.{subst}
use left_hook_roll.ServerManager.Polling.{get_cgi_pipe_fd}
use left_hook_roll.ServerManager.State.{Pointer, Client, ServerManager}
use left_hook_roll.Connection.{processing, reading, ConnectionState}
use left_hook_roll.Table.{
  has_key-add_key, find_key-set_key, find_key-erase_key, has_key, has_key-remove_key, set_key,
  erase_key, add_key, remove_key, find_key, Keys, Table,
}
use left_hook_roll.Prelude.{
  ap, ◌∙◌, ==_iff, sym, false, true, ◌==◌, arith, Bool-cases, some, ◌≡◌, ◌≢◌, ℕ, inl, inr,
}

-- The states of a connection whose script may still run.
abbrev pub Answers : ConnectionState → Type 0
Answers reading = ⊥
Answers processing = ⊥
Answers _ = Unit {0}

-- The object at `p` is alive and registered under its descriptor.
pub record Lives (clients : Table Client) (connections : Table Pointer) (p : Pointer) : Type 0 where
  pub client : Client
  pub alive : find_key p clients ≡ some client
  pub registered : find_key client.fd connections ≡ some p

-- The pipe belongs to the script of the connection at `p`, which waits for it.
pub record Awaits (clients : Table Client) (connections : Table Pointer) (queued : Keys) (pipe : ℕ)
    (p : Pointer) : Type 0 where
  pub lives : Lives clients connections p
  pub own_pipe : get_cgi_pipe_fd lives.client.connection ≡ some pipe
  pub answers : Answers lives.client.connection.state
  pub not_queued : has_key p queued ≡ false

pub record Sound (clients : Table Client) (connections : Table Pointer) (queued : Keys)
    (pipes : Table Pointer) : Type 0 where
  pub owned :
      (fd : ℕ) (p : Pointer)
      → find_key fd connections ≡ some p
      → (c : Client) × (find_key p clients ≡ some c) × (c.fd ≡ fd)
  pub scheduled : (p : Pointer) → has_key p queued ≡ true → Lives clients connections p
  pub piped :
      (pipe : ℕ) (p : Pointer)
      → find_key pipe pipes ≡ some p
      → Awaits clients connections queued pipe p

-- Every pointer in the table of connections, the processing set and the table of pipes is that of a
-- connection that is alive and registered.
abbrev pub IsSound : ServerManager → Type 0
IsSound s = Sound s.clients s.connections s.processing_set s.cgi_pipe_to_conn

-- No pipe is registered for `p`.
abbrev pub IsUnpiped : Table Pointer → Pointer → Type 0
IsUnpiped pipes p = (pipe : ℕ) → find_key pipe pipes ≢ some p

module _ (clients : Table Client) (connections : Table Pointer) (queued : Keys)
    (pipes : Table Pointer) (h : Sound clients connections queued pipes) where
  -- The pointer leaves the set.
  pub Sound-dequeued : (p : Pointer) → Sound clients connections (remove_key p queued) pipes
  Sound-dequeued p = record {
    owned = h.owned;
    scheduled = λ q e. h.scheduled q (ground (arith, has_key-remove_key p q queued));
    piped = λ pipe q e.
        let a = h.piped pipe q e in
        record {
          lives = a.lives;
          own_pipe = a.own_pipe;
          answers = a.answers;
          not_queued = ground (arith, a.not_queued, has_key-remove_key p q queued);
        };
  }

  pub Sound-enqueued :
      (p : Pointer)
      → Lives clients connections p
      → IsUnpiped pipes p
      → Sound clients connections (add_key p queued) pipes
  Sound-enqueued p l u = record {
    owned = h.owned;
    scheduled = λ q e. elim (Bool-cases (p == q)) [
      | inl same ↦ subst (Lives clients connections) ((==_iff p q).0 same) l
      | inr other ↦ h.scheduled q (ground (arith, has_key-add_key p q queued))
    ];
    piped = λ pipe q e.
        let a = h.piped pipe q e in
        record {
          lives = a.lives;
          own_pipe = a.own_pipe;
          answers = a.answers;
          not_queued = elim (Bool-cases (p == q)) [
            | inl same ↦ absurd (u pipe (e ∙ ap some (sym ((==_iff p q).0 same))))
            | inr other ↦ ground (arith, a.not_queued, has_key-add_key p q queued)
          ];
        };
  }

  -- The pipe is no longer registered.
  pub Sound-unregistered : (pipe : ℕ) → Sound clients connections queued (erase_key pipe pipes)
  Sound-unregistered pipe = record {
    owned = h.owned;
    scheduled = h.scheduled;
    piped = λ other q e. h.piped other q (ground (arith, find_key-erase_key pipe other pipes));
  }

  pub Sound-registered :
      (pipe : ℕ) (p : Pointer)
      → Awaits clients connections queued pipe p
      → Sound clients connections queued (set_key pipe p pipes)
  Sound-registered pipe p a = record {
    owned = h.owned;
    scheduled = h.scheduled;
    piped = λ other q e. elim (Bool-cases (pipe == other)) [
      | inl same ↦
          let i : pipe ≡ other = (==_iff pipe other).0 same in
          let j : p ≡ q = ground (arith, find_key-set_key pipe other p pipes) in
          subst (λ k. Awaits clients connections queued k q) i
            (subst (Awaits clients connections queued pipe) j a)
      | inr differ ↦ h.piped other q (ground (arith, find_key-set_key pipe other p pipes))
    ];
  }

  -- After its only pipe is unregistered, a connection has none.
  pub IsUnpiped-unregistered :
      (pipe : ℕ) (p : Pointer) → find_key pipe pipes ≡ some p → IsUnpiped (erase_key pipe pipes) p
  IsUnpiped-unregistered pipe p e other f =
      let a = h.piped pipe p e in
      let f' : find_key other pipes ≡ some p =
        ground (arith, find_key-erase_key pipe other pipes) in
      let b = h.piped other p f' in
      let c : some a.lives.client ≡ some b.lives.client = sym a.lives.alive ∙ b.lives.alive in
      let d : some pipe ≡ some other = ground (arith, a.own_pipe, b.own_pipe) in
      ground (arith, find_key-erase_key pipe other pipes)
