-- ===== src/ServerManager/Kept.antt =====
-- What holds of the manager after a method, and what a method's parts say of it.
use left_hook_roll.Dict.{is_some}
use left_hook_roll.Connection.{trigger_error, Connection}
use left_hook_roll.Table.{set_key, Table, find_key}
use left_hook_roll.Prelude.Int.{pos, ℤ}
use left_hook_roll.Response.State.{Site}
use left_hook_roll.Prelude.Result.{
  threw, out_of_fuel, runtime_error, fatal_exception, ok, after, client_exception, Result, M,
}
use left_hook_roll.Prelude.{some, ◌≡◌, List, false, true, if◌then◌else◌, ℕ, Bool}
use left_hook_roll.ServerManager.Polling.{epoll_ctl, add_poll_fd}
use left_hook_roll.ServerManager.State.{
  with_client, store_connection, dangling, Events, raised, on_connection, ◌>>◌, Client, done,
  Outcome, Pointer, returned, Method, catch_errors, ServerManager,
}

-- The method does not use a deleted object, and leaves a manager with the property, whether it returns
-- or throws.
abbrev pub Keeps : {A : Type 0} → (ServerManager → Type 0) → Outcome A → Type 0
Keeps P (done a s) = P s
Keeps P (raised e s) = P s
Keeps P dangling = ⊥

module _ {A : Type 0} (P : ServerManager → Type 0) where
  Keeps-weaken :
      (Q : ServerManager → Type 0) (x : Outcome A)
      → Keeps Q x
      → ((s : ServerManager) → Q s → P s)
      → Keeps P x
  Keeps-weaken Q (done a s) h w = w s h
  Keeps-weaken Q (raised e s) h w = w s h
  Keeps-weaken Q dangling h w = h

  Keeps-returned :
      (p : Pointer) (c : Client) (x : Result Connection A) (s : ServerManager)
      → P (store_connection p c (after x) s)
      → Keeps P (returned p c x s)
  unfolding returned
  Keeps-returned p c (ok a d) s h = h
  Keeps-returned p c (threw e d) s h = h

  pub Keeps-client :
      (p : Pointer) (k : Client → Method A) (s : ServerManager) (c : Client)
      → find_key p s.clients ≡ some c
      → Keeps P (k c s)
      → Keeps P (with_client p k s)
  Keeps-client p k s c e h = rw (e, Keeps) h

  pub Keeps-on :
      (p : Pointer) (m : M Connection A) (s : ServerManager) (c : Client)
      → find_key p s.clients ≡ some c
      → P (store_connection p c (after (m c.connection)) s)
      → Keeps P (on_connection p m s)
  Keeps-on p m s c e h =
      Keeps-client p (λ b. returned p b (m b.connection)) s c e
        (Keeps-returned p c (m c.connection) s h)

  pub Keeps-choice :
      (b : Bool) (m k : Method A) (s : ServerManager)
      → Keeps P (m s)
      → Keeps P (k s)
      → Keeps P ((if b then m else k) s)
  Keeps-choice true m k s h g = h
  Keeps-choice false m k s h g = g

  pub Keeps-if : (b : Bool) (x y : Outcome A) → Keeps P x → Keeps P y → Keeps P (if b then x else y)
  Keeps-if true x y h k = h
  Keeps-if false x y h k = k

-- A method, and what follows it: `P` holds between them, and also where the first throws.
module _ {A B : Type 0} (P Q : ServerManager → Type 0) (w : (s : ServerManager) → P s → Q s) where
  Keeps-next :
      (x : Outcome A) (k : A → Method B)
      → Keeps P x
      → ((a : A) (s : ServerManager) → P s → Keeps Q (k a s))
      → Keeps Q (elim x as (λ x. Outcome B) [
        | done a t ↦ k a t
        | raised e t ↦ raised e t
        | dangling ↦ dangling
      ])
  Keeps-next (done a s) k h g = g a s h
  Keeps-next (raised e s) k h g = w s h
  Keeps-next dangling k h g = h

  pub Keeps-then :
      (m : Method A) (k : Method B) (s : ServerManager)
      → Keeps P (m s)
      → ((t : ServerManager) → P t → Keeps Q (k t))
      → Keeps Q ((m >> k) s)
  Keeps-then m k s h g = Keeps-next (m s) (λ a. k) h (λ a. g)

module _ (P : ServerManager → Type 0) where
  -- epoll_ctl changes neither the connections nor what points to them.
  pub Keeps-add_poll_fd :
      (fd : ℕ) (events : Events) (s : ServerManager)
      → ((replies : List Bool) (m : Table Events)
          → P (record s { ctl_replies = replies; fd_events = m }))
      → Keeps P (add_poll_fd fd events s)
  unfolding add_poll_fd
  Keeps-add_poll_fd fd events s h =
      go (epoll_ctl s.ctl_replies).0 (is_some (find_key fd s.fd_events))
    where
      t : ServerManager
      t = record s { ctl_replies = (epoll_ctl s.ctl_replies).1 }

      entered : ServerManager
      entered = record t { fd_events = set_key fd events t.fd_events }

      go :
          (b known : Bool)
          → Keeps P
              (if b then done tt entered else raised fatal_exception (if known then entered else t))
      go true known = h (epoll_ctl s.ctl_replies).1 (set_key fd events s.fd_events)
      go false true = h (epoll_ctl s.ctl_replies).1 (set_key fd events s.fd_events)
      go false false = h (epoll_ctl s.ctl_replies).1 s.fd_events

  pub Keeps-caught :
      (site : Site) (p : Pointer) (x : Outcome (Unit {0}))
      → Keeps P x
      → ((code : ℤ) (s : ServerManager)
          → P s
          → Keeps P (on_connection p (trigger_error site code) s))
      → Keeps P (catch_errors site p x)
  unfolding catch_errors
  Keeps-caught site p (done a s) h g = h
  Keeps-caught site p (raised (client_exception code) s) h g = g (pos code) s h
  Keeps-caught site p (raised fatal_exception s) h g = h
  Keeps-caught site p (raised runtime_error s) h g = g (pos 500) s h
  Keeps-caught site p (raised out_of_fuel s) h g = h
  Keeps-caught site p dangling h g = h
