-- ===== src/ServerManager/Constructed.antt =====
-- The manager that the constructor makes of the configurations.
use mathlib.Core.Path.{subst}
use left_hook_roll.Prelude.Members.{In-left, In, In-right}
use left_hook_roll.ServerManager.Added.{
  add_server-Adds, stored, AllWatched, Added, IsWatched, Adds, bound_to,
}
use left_hook_roll.ServerManager.Safety.{new_manager-IsSound}
use left_hook_roll.ServerManager.Sound.{IsSound}
use left_hook_roll.Prelude.Result.{Exception, fatal_exception}
use left_hook_roll.ServerManager.Listening.{
  or_close_all, server_manager, get_server_conf_for_fd, add_servers, add_server, ListenReplies,
  find_address,
}
use left_hook_roll.Conf.{ServerConf, SockAddr}
use left_hook_roll.ServerManager.Polling.{fds_of, close_all_fds}
use left_hook_roll.Prelude.{
  inl, append-nil, append_assoc, map, ◌++◌, ℕ, refl, [], ◌∷◌, ◌≡◌, List, Bool, some, none, Option,
  ap, ◌∙◌, sym, arith,
}
use left_hook_roll.ServerManager.State.{ServerManager, Outcome, done, raised, dangling, new_manager}

AllWatched-kept :
    (confs : List (ServerConf × ListenReplies)) (s t : ServerManager)
    → ((fd : ℕ) → IsWatched fd s → IsWatched fd t)
    → AllWatched confs s
    → AllWatched confs t
AllWatched-kept [] s t k a = tt
AllWatched-kept ((conf, r) ∷ confs) s t k (w, a) =
    ((w.0, w.1, k w.0 w.2), AllWatched-kept confs s t k a)

-- One configuration, and the others behind it.
Added-both :
    (conf : ServerConf) (k : ListenReplies) (confs : List (ServerConf × ListenReplies))
    (s t u : ServerManager)
    → Added ((conf, k) ∷ []) s t
    → Added confs t u
    → Added ((conf, k) ∷ confs) s u
unfolding bound_to
Added-both conf k confs s t u h g = record {
  confs_kept =
      g.confs_kept
      ∙ ap (λ x. x ++ map (λ c. c.0) confs) h.confs_kept
      ∙ append_assoc s.server_confs (conf ∷ []) (map (λ c. c.0) confs);
  bound = λ a. ground (arith, g.bound a, h.bound a);
  all_watched =
      ((AllWatched-kept ((conf, k) ∷ []) t u g.still_watched h.all_watched).0, g.all_watched);
  still_watched = λ fd w. g.still_watched fd (h.still_watched fd w);
  sound_kept = λ v. g.sound_kept (h.sound_kept v);
  epoll_kept = g.epoll_kept ∙ h.epoll_kept;
}

add_servers-Adds :
    (confs : List (ServerConf × ListenReplies)) (s : ServerManager)
    → Adds confs s (add_servers confs s)
unfolding add_servers bound_to
add_servers-Adds [] s = record {
  confs_kept = sym (append-nil s.server_confs);
  bound = λ a. refl;
  all_watched = tt;
  still_watched = λ fd w. w;
  sound_kept = λ v. v;
  epoll_kept = refl;
}
add_servers-Adds ((conf, k) ∷ confs) s =
    go (add_server k conf (stored conf s)) (add_server-Adds conf k s) (add_servers-Adds confs)
  where
    rest :
        (t : ServerManager) (y : Outcome (Unit {0}))
        → Added ((conf, k) ∷ []) s t
        → Adds confs t y
        → Adds ((conf, k) ∷ confs) s y
    rest t (done b u) h g = Added-both conf k confs s t u h g
    rest t (raised e u) h g = (g.0, g.1 ∙ h.epoll_kept)
    rest t dangling h g = g

    go :
        (x : Outcome (Unit {0}))
        → Adds ((conf, k) ∷ []) s x
        → ((t : ServerManager) → Adds confs t (add_servers confs t))
        → Adds ((conf, k) ∷ confs) s (elim x as (λ x. Outcome (Unit {0})) [
          | done a t ↦ add_servers confs t
          | raised e t ↦ raised e t
          | dangling ↦ dangling
        ])
    go (done a t) h f = rest t (add_servers confs t) h (f t)
    go (raised e t) h f = h
    go dangling h f = h

-- The manager holds no connection, and watches nothing.
pub record IsClosed (s : ServerManager) : Type 0 where
  pub no_clients : s.clients ≡ []
  pub no_connections : s.connections ≡ []
  pub no_confs : s.server_confs ≡ []
  pub no_events : s.fd_events ≡ []
  pub no_epoll : s.epoll_fd ≡ none

pub IsClosed-close_all_fds : (s : ServerManager) → s.server_confs ≡ [] → IsClosed (close_all_fds s)
unfolding close_all_fds
IsClosed-close_all_fds s e = record {
  no_clients = refl;
  no_connections = refl;
  no_confs = e;
  no_events = refl;
  no_epoll = refl;
}

-- Every descriptor that the manager watched, and epoll's own, is closed.
pub record Released (was s : ServerManager) : Type 0 where
  pub fds_closed : (fd : ℕ) → In fd (fds_of was.fd_events) → In fd s.closed
  pub epoll_closed : (fd : ℕ) → was.epoll_fd ≡ some fd → In fd s.closed

pub Released-close_all_fds : (s : ServerManager) → Released s (close_all_fds s)
unfolding close_all_fds
Released-close_all_fds s = record {
  fds_closed = λ fd h. In-right fd s.closed _ (In-left fd (fds_of s.fd_events) _ h);
  epoll_closed = λ fd e. In-right fd s.closed _ (
      In-right fd (fds_of s.fd_events) _ (
        subst (λ (o : Option ℕ). In fd (elim o as (λ o. List ℕ) [ none ↦ [] | some k ↦ k ∷ [] ]))
          (sym e) (inl refl)));
}

-- What an exception of the constructor has undone: nothing without epoll's descriptor, and else what
-- its loop had done up to the exception.
abbrev pub Undone :
    Option ℕ → List Bool → List (ServerConf × ListenReplies) → Exception → ServerManager → Type 0
Undone none replies confs e s = s.closed ≡ []
Undone (some fd) replies confs e s =
    In fd s.closed
    × ((t : ServerManager) × (add_servers confs (new_manager fd replies) ≡ raised e t)
        × Released t s)

-- The constructor serves all configurations, or throws with nothing left open.
abbrev pub Constructed :
    Option ℕ → List Bool → List (ServerConf × ListenReplies) → Outcome (Unit {0}) → Type 0
Constructed epoll_fd replies confs (done a s) =
    IsSound s
    × (s.server_confs ≡ map (λ c. c.0) confs)
    × ((a : SockAddr) → get_server_conf_for_fd (some a) s ≡ bound_to a confs)
    × AllWatched confs s
Constructed epoll_fd replies confs (raised e s) =
    (e ≡ fatal_exception) × IsClosed s × Undone epoll_fd replies confs e s
Constructed epoll_fd replies confs dangling = ⊥

pub server_manager-Constructed :
    (epoll_fd : Option ℕ) (replies : List Bool) (confs : List (ServerConf × ListenReplies))
    → Constructed epoll_fd replies confs (server_manager epoll_fd replies confs)
unfolding server_manager get_server_conf_for_fd new_manager find_address close_all_fds
server_manager-Constructed none replies confs = (
  refl,
  record {
    no_clients = refl;
    no_connections = refl;
    no_confs = refl;
    no_events = refl;
    no_epoll = refl;
  },
  refl,
)
server_manager-Constructed (some epoll_fd) replies confs =
    go (add_servers confs (new_manager epoll_fd replies)) refl
      (add_servers-Adds confs (new_manager epoll_fd replies))
  where
    same :
        (o : Option ServerConf)
        → elim o as (λ o. Option ServerConf) [ none ↦ none | some c ↦ some c ] ≡ o
    same none = refl
    same (some c) = refl

    go :
        (x : Outcome (Unit {0}))
        → add_servers confs (new_manager epoll_fd replies) ≡ x
        → Adds confs (new_manager epoll_fd replies) x
        → Constructed (some epoll_fd) replies confs (or_close_all x)
    go (done a s) q h = (
      h.sound_kept (new_manager-IsSound epoll_fd replies),
      h.confs_kept,
      λ a. h.bound a ∙ same (bound_to a confs),
      h.all_watched,
    )
    go (raised e s) q h =
        let r = Released-close_all_fds (record s { server_confs = [] }) in
        (
          h.0,
          IsClosed-close_all_fds (record s { server_confs = [] }) refl,
          (
            r.epoll_closed epoll_fd h.1,
            (s, q, record { fds_closed = r.fds_closed; epoll_closed = r.epoll_closed }),
          ),
        )
    go dangling q h = h
