-- ===== src/ServerManager/Idle.antt =====
-- The loop of a sweep of the timeouts over the connections that have been idle for too long.
use left_hook_roll.ServerManager.Paged.{trigger_error-Paged, IsPaged, Servable, Paged}
use left_hook_roll.ServerManager.Polling.{epoll_ctl, add_poll_fd}
use mathlib.Core.Path.{subst}
use left_hook_roll.ServerManager.Clients.{dequeue_processing}
use left_hook_roll.Prelude.Int.{pos}
use left_hook_roll.ServerManager.Scheduling.{finalize_state, finalize_processed}
use left_hook_roll.ServerManager.Timeouts.{time_out_fd, time_out_fds}
use left_hook_roll.Response.State.{Site}
use left_hook_roll.Connection.{trigger_error}
use left_hook_roll.Table.{find_key-set_key, remove_key, set_key, Table, find_key}
use left_hook_roll.Prelude.{
  arith, ◌==◌, inl, inr, ◌⊎◌, List, Bool-cases, ℕ, refl, [], ◌∷◌, ◌≡◌, none, some, Option, ap, ◌∙◌,
  sym,
}
use left_hook_roll.ServerManager.State.{
  ◌>>◌, done, raised, dangling, ServerManager, Outcome, Pointer, Client, on_connection, returned,
  modify, epollin_out,
}
use left_hook_roll.ServerManager.Returned.{with_client-alive, find_key-stored}

-- The manager, as a sweep works on it: the table of connections is `m`, its pointers are those of
-- objects that are there, and the kernel serves.
pub record Sweepable (site : Site) (m : Table Pointer) (s : ServerManager) : Type 0 where
  pub table : s.connections ≡ m
  pub ctl : s.ctl_replies ≡ []
  pub owned :
      (fd : ℕ) (p : Pointer)
      → find_key fd m ≡ some p
      → (c : Client) × (find_key p s.clients ≡ some c)
  pub servable :
      (p : Pointer) (c : Client) → find_key p s.clients ≡ some c → Servable site c.connection

-- The connection at `q` is there, and waits to write an answer of status 408.
abbrev pub IsPagedAt : Pointer → ServerManager → Type 0
IsPagedAt q s = (b : Client) × (find_key q s.clients ≡ some b) × IsPaged b.connection

module _ (site : Site) (m : Table Pointer) (p : Pointer) (c : Client) (s : ServerManager)
    (h : Sweepable site m s) (alive : find_key p s.clients ≡ some c) where
  page : Paged site c.connection
  page = trigger_error-Paged site c.connection (h.servable p c alive)

  with_page : Client
  with_page = record c { connection = page.made }

  timed : ServerManager
  timed = record s {
    clients = set_key p with_page s.clients;
    processing_set = remove_key p s.processing_set;
    ctl_replies = [];
    fd_events = set_key c.fd epollin_out s.fd_events;
  }

  finalized :
      finalize_processed site.time p
        (dequeue_processing p (record s { clients = set_key p with_page s.clients }))
      ≡ done tt timed
  unfolding finalize_processed dequeue_processing finalize_state add_poll_fd epoll_ctl timed
      with_page
  finalized =
      let t : ServerManager =
        dequeue_processing p (record s { clients = set_key p with_page s.clients }) in
      with_client-alive p (λ b. finalize_state site.time p b.fd b.connection.state) t with_page
        (find_key-stored p with_page s.clients)
      ∙ ap (λ st. finalize_state site.time p c.fd st t) page.is_paged.writes
      ∙ ap (λ rs. add_poll_fd c.fd epollin_out (record t { ctl_replies = rs })) h.ctl

  timed_is :
      (on_connection p (trigger_error site (pos 408))
          >> (modify (dequeue_processing p) >> finalize_processed site.time p))
        s
      ≡ done tt timed
  unfolding returned with_page
  timed_is =
      ap
        (λ x. elim x as (λ x. Outcome (Unit {0})) [
          | done a t ↦ finalize_processed site.time p (dequeue_processing p t)
          | raised e t ↦ raised e t
          | dangling ↦ dangling
        ])
        (with_client-alive p (λ b. returned p b (trigger_error site (pos 408) b.connection)) s c
            alive
          ∙ ap (λ x. returned p c x s) page.returns)
      ∙ finalized

  timed-Sweepable : Sweepable site m timed
  unfolding timed with_page
  timed-Sweepable = record {
    table = h.table;
    ctl = refl;
    owned = λ fd k e. elim (Bool-cases (p == k)) [
      | inl same ↦ (with_page, ground (arith, find_key-set_key p k with_page s.clients))
      | inr other ↦
          let b = h.owned fd k e in
          (b.0, ground (arith, b.1, find_key-set_key p k with_page s.clients))
    ];
    servable = λ k b e. elim (Bool-cases (p == k)) [
      | inl same ↦
          let i : some with_page ≡ some b =
            ground (arith, e, find_key-set_key p k with_page s.clients) in
          subst
            (λ (o : Option Client). elim o as (λ o. Type 0) [
              | none ↦ Unit {0}
              | some a ↦ Servable site a.connection
            ])
            i page.servable
      | inr other ↦ h.servable k b (ground (arith, e, find_key-set_key p k with_page s.clients))
    ];
  }

  -- The connection is given the page, and one that has it keeps one.
  timed-IsPagedAt : (q : Pointer) → IsPagedAt q s ⊎ (p ≡ q) → IsPagedAt q timed
  unfolding timed with_page
  timed-IsPagedAt q (inr same) = (
    with_page,
    subst (λ k. find_key k (set_key p with_page s.clients) ≡ some with_page) same
        (find_key-stored p with_page s.clients),
    page.is_paged,
  )
  timed-IsPagedAt q (inl (b, e, v)) = elim (Bool-cases (p == q)) [
    | inl same ↦
        (with_page, ground (arith, find_key-set_key p q with_page s.clients), page.is_paged)
    | inr other ↦ (b, ground (arith, e, find_key-set_key p q with_page s.clients), v)
  ]

-- `q` stands under one of the descriptors.
abbrev pub Among : Table Pointer → List ℕ → Pointer → Type 0
Among m [] q = ⊥
Among m (fd ∷ fds) q = (find_key fd m ≡ some q) ⊎ Among m fds q

-- The connections of the descriptors have been timed out, and no page has been lost.
pub record TimedOut (site : Site) (m : Table Pointer) (fds : List ℕ) (s : ServerManager)
    (x : Outcome (Unit {0})) : Type 0 where
  pub after : ServerManager
  pub returns : x ≡ done tt after
  pub sweepable : Sweepable site m after
  pub paged : (q : Pointer) → IsPagedAt q s ⊎ Among m fds q → IsPagedAt q after

module _ (site : Site) (m : Table Pointer) where
  time_out_fd-TimedOut :
      (fd : ℕ) (s : ServerManager)
      → Sweepable site m s
      → TimedOut site m (fd ∷ []) s (time_out_fd site fd s)
  unfolding time_out_fd
  time_out_fd-TimedOut fd s h = go (find_key fd s.connections) refl
    where
      go :
          (o : Option Pointer)
          → find_key fd s.connections ≡ o
          → TimedOut site m (fd ∷ []) s (elim o as (λ o. Outcome (Unit {0})) [
            | none ↦ done tt s
            | some p ↦
                (on_connection p (trigger_error site (pos 408))
                    >> (modify (dequeue_processing p) >> finalize_processed site.time p))
                  s
          ])
      go none e = record {
        after = s;
        returns = refl;
        sweepable = h;
        paged = λ q x. elim x [
          | inl k ↦ k
          | inr y ↦ elim y [
            | inl f ↦ absurd (cc (sym (ap (find_key fd) h.table) ∙ e, f))
            | inr z ↦ absurd z
          ]
        ];
      }
      go (some p) e =
          let f : find_key fd m ≡ some p = sym (ap (find_key fd) h.table) ∙ e in
          let a = h.owned fd p f in
          record {
            after = timed site m p a.0 s h a.1;
            returns = timed_is site m p a.0 s h a.1;
            sweepable = timed-Sweepable site m p a.0 s h a.1;
            paged = λ q x. timed-IsPagedAt site m p a.0 s h a.1 q (elim x [
              | inl k ↦ inl k
              | inr y ↦ elim y [ inl g ↦ inr (ground (arith, f, g)) | inr z ↦ absurd z ]
            ]);
          }

  pub time_out_fds-TimedOut :
      (fds : List ℕ) (s : ServerManager)
      → Sweepable site m s
      → TimedOut site m fds s (time_out_fds site fds s)
  unfolding time_out_fds
  time_out_fds-TimedOut [] s h = record {
    after = s;
    returns = refl;
    sweepable = h;
    paged = λ q x. elim x [ inl k ↦ k | inr z ↦ absurd z ];
  }
  time_out_fds-TimedOut (fd ∷ fds) s h =
      let one = time_out_fd-TimedOut fd s h in
      let rest = time_out_fds-TimedOut fds one.after one.sweepable in
      record {
        after = rest.after;
        returns =
            ap
              (λ x. elim x as (λ x. Outcome (Unit {0})) [
                | done a t ↦ time_out_fds site fds t
                | raised e t ↦ raised e t
                | dangling ↦ dangling
              ])
              one.returns
            ∙ rest.returns;
        sweepable = rest.sweepable;
        paged = λ q x. elim x [
          | inl k ↦ rest.paged q (inl (one.paged q (inl k)))
          | inr y ↦ elim y [
            | inl f ↦ rest.paged q (inl (one.paged q (inr (inl f))))
            | inr a ↦ rest.paged q (inr a)
          ]
        ];
      }
