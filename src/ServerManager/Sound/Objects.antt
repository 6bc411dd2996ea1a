-- ===== src/ServerManager/Sound/Objects.antt =====
-- Soundness when a Connection changes, is deleted or is made.
use left_hook_roll.ServerManager.Polling.{get_cgi_pipe_fd}
use left_hook_roll.ServerManager.Sound.{
  has_key-remove_key, find_key-erase_key, remove_key, IsUnpiped, erase_key, Answers, Awaits,
  get_cgi_pipe_fd, Sound, find_key-set_key, Lives,
}
use left_hook_roll.Connection.{Connection}
use left_hook_roll.ServerManager.State.{Pointer, Client}
use left_hook_roll.Table.{
  has_key-remove_key, remove_key, find_key-erase_key, erase_key, find_key-set_key, set_key, Keys,
  find_key, Table,
}
use left_hook_roll.Prelude.{
  none, ◌∙◌, sym, ap, ==_iff, ◌==◌, Bool-cases, ℕ, arith, ◌≢◌, some, ◌≡◌, inl, inr,
}

-- A change of the connection at `p`.
module _ (clients : Table Client) (connections : Table Pointer) (p : Pointer) (c : Client)
    (d : Connection) (at : find_key p clients ≡ some c) where
  abbrev changed : Table Client
  changed = set_key p (record c { connection = d }) clients

  find_key-changed :
      (q : Pointer) → (p ≡ q) → find_key q changed ≡ some (record c { connection = d })
  find_key-changed q e = ground (arith, find_key-set_key p q (record c { connection = d }) clients)

  find_key-unchanged : (q : Pointer) → p ≢ q → find_key q changed ≡ find_key q clients
  find_key-unchanged q n =
      ground (arith, find_key-set_key p q (record c { connection = d }) clients)

  -- The object at `q` after the change: its descriptor is the same, and its pipe and state too if
  -- they are those that the change leaves at `p`.
  module _ (q : Pointer) (a : Client) (e : find_key q clients ≡ some a) where
    Lives-changed : (k : find_key a.fd connections ≡ some q) → Lives changed connections q
    Lives-changed k = elim (Bool-cases (p == q)) [
      | inl same ↦
          let i : p ≡ q = (==_iff p q).0 same in
          let j : some c ≡ some a = sym at ∙ ap (λ x. find_key x clients) i ∙ e in
          record {
            client = record c { connection = d };
            alive = find_key-changed q i;
            registered = ap (λ x. find_key x connections) (ground arith) ∙ k;
          }
      | inr other ↦ record {
        client = a;
        alive = find_key-unchanged q (λ i. ground arith) ∙ e;
        registered = k;
      }
    ]

    owned_changed :
        (fd : ℕ) → a.fd ≡ fd → (b : Client) × (find_key q changed ≡ some b) × (b.fd ≡ fd)
    owned_changed fd same_fd = elim (Bool-cases (p == q)) [
      | inl same ↦
          let i : p ≡ q = (==_iff p q).0 same in
          let j : some c ≡ some a = sym at ∙ ap (λ x. find_key x clients) i ∙ e in
          (record c { connection = d }, find_key-changed q i, ground arith)
      | inr other ↦ (a, find_key-unchanged q (λ i. ground arith) ∙ e, same_fd)
    ]

  Awaits-changed :
      (queued : Keys) (pipe : ℕ) (q : Pointer) (w : Awaits clients connections queued pipe q)
      → (p ≡ q → (get_cgi_pipe_fd d ≡ get_cgi_pipe_fd c.connection) × Answers d.state)
      → Awaits changed connections queued pipe q
  Awaits-changed queued pipe q w calm = elim (Bool-cases (p == q)) [
    | inl same ↦
        let i : p ≡ q = (==_iff p q).0 same in
        let j : some c ≡ some w.lives.client =
          sym at ∙ ap (λ x. find_key x clients) i ∙ w.lives.alive in
        let k : c ≡ w.lives.client = ground arith in
        record {
          lives = record {
            client = record c { connection = d };
            alive = find_key-changed q i;
            registered = ap (λ (x : Client). find_key x.fd connections) k ∙ w.lives.registered;
          };
          own_pipe = (calm i).0 ∙ ap (λ (x : Client). get_cgi_pipe_fd x.connection) k ∙ w.own_pipe;
          answers = (calm i).1;
          not_queued = w.not_queued;
        }
    | inr other ↦ record {
      lives = record {
        client = w.lives.client;
        alive = find_key-unchanged q (λ i. ground arith) ∙ w.lives.alive;
        registered = w.lives.registered;
      };
      own_pipe = w.own_pipe;
      answers = w.answers;
      not_queued = w.not_queued;
    }
  ]

  pub Sound-changed :
      (queued : Keys) (pipes : Table Pointer)
      → Sound clients connections queued pipes
      → ((pipe : ℕ)
          → find_key pipe pipes ≡ some p
          → (get_cgi_pipe_fd d ≡ get_cgi_pipe_fd c.connection) × Answers d.state)
      → Sound changed connections queued pipes
  Sound-changed queued pipes h calm = record {
    owned = λ fd q e. let o = h.owned fd q e in owned_changed q o.0 o.1 fd o.2;
    scheduled = λ q e. let l = h.scheduled q e in Lives-changed q l.client l.alive l.registered;
    piped = λ pipe q e.
        Awaits-changed queued pipe q (h.piped pipe q e) (λ i. calm pipe (e ∙ ap some (sym i)));
  }

-- The connection of the descriptor `fd` is deleted.
module _ (clients : Table Client) (connections : Table Pointer) (fd : ℕ) (p : Pointer) (c : Client)
    (at : find_key p clients ≡ some c) (same_fd : c.fd ≡ fd)
    (of : find_key fd connections ≡ some p) where
  Lives-erased :
      (q : Pointer)
      → Lives clients connections q
      → p ≢ q
      → Lives (erase_key p clients) (erase_key fd connections) q
  Lives-erased q l n = record {
    client = l.client;
    alive = ground (arith, l.alive, find_key-erase_key p q clients);
    registered = elim (Bool-cases (fd == l.client.fd)) [
      | inl same ↦
          let i : find_key fd connections ≡ find_key l.client.fd connections =
            ap (λ x. find_key x connections) ((==_iff fd l.client.fd).0 same) in
          let j : some p ≡ some q = sym of ∙ i ∙ l.registered in absurd (n (ground arith))
      | inr other ↦ ground (arith, l.registered, find_key-erase_key fd l.client.fd connections)
    ];
  }

  pub Sound-erased :
      (queued : Keys) (pipes : Table Pointer)
      → Sound clients connections queued pipes
      → IsUnpiped pipes p
      → Sound (erase_key p clients) (erase_key fd connections) (remove_key p queued) pipes
  unfolding Lives-erased
  Sound-erased queued pipes h u = record {
    owned = λ other q e.
        let f : find_key other connections ≡ some q =
          ground (arith, find_key-erase_key fd other connections) in
        let o = h.owned other q f in
        let n : p ≢ q = λ i.
          let j : some c ≡ some o.0 = sym at ∙ ap (λ x. find_key x clients) i ∙ o.1 in
          ground (arith, o.2, find_key-erase_key fd other connections) in
        (o.0, ground (arith, o.1, find_key-erase_key p q clients), o.2);
    scheduled = λ q e.
        Lives-erased q (h.scheduled q (ground (arith, has_key-remove_key p q queued)))
          (λ i. ground (arith, has_key-remove_key p q queued));
    piped = λ pipe q e.
        let w = h.piped pipe q e in
        let n : p ≢ q = λ i. u pipe (e ∙ ap some (sym i)) in
        let l = Lives-erased q w.lives n in
        record {
          lives = l;
          own_pipe = w.own_pipe;
          answers = w.answers;
          not_queued = ground (arith, w.not_queued, has_key-remove_key p q queued);
        };
  }

-- A new connection, on a descriptor and at an address that are not in use.
module _ (clients : Table Client) (connections : Table Pointer) (fd : ℕ) (p : Pointer) (c : Client)
    (fresh : find_key p clients ≡ none) (same_fd : c.fd ≡ fd)
    (unused : find_key fd connections ≡ none) where
  Lives-added :
      (q : Pointer)
      → Lives clients connections q
      → Lives (set_key p c clients) (set_key fd p connections) q
  Lives-added q l = record {
    client = l.client;
    alive = ground (arith, l.alive, find_key-set_key p q c clients);
    registered = ground (arith, l.registered, find_key-set_key fd l.client.fd p connections);
  }

  pub Sound-added :
      (queued : Keys) (pipes : Table Pointer)
      → Sound clients connections queued pipes
      → Sound (set_key p c clients) (set_key fd p connections) queued pipes
  unfolding Lives-added
  Sound-added queued pipes h = record {
    owned = λ other q e. elim (Bool-cases (fd == other)) [
      | inl same ↦
          let j : p ≡ q = ground (arith, find_key-set_key fd other p connections) in
          (c, ground (arith, find_key-set_key p q c clients), ground arith)
      | inr differ ↦
          let o = h.owned other q (ground (arith, find_key-set_key fd other p connections)) in
          (o.0, ground (arith, o.1, find_key-set_key p q c clients), o.2)
    ];
    scheduled = λ q e. Lives-added q (h.scheduled q e);
    piped = λ pipe q e.
        let w = h.piped pipe q e in
        record {
          lives = Lives-added q w.lives;
          own_pipe = w.own_pipe;
          answers = w.answers;
          not_queued = w.not_queued;
        };
  }
