-- ===== src/DataStore/Reads.antt =====
-- `read` and `resetReadPosition` against the contents of the store.
use left_hook_roll.DataStore.ReadSteps.{read_in-Gives, nothing, count}
use left_hook_roll.DataStore.Served.{count_of-nil}
use mathlib.Core.Path.{subst}
use left_hook_roll.DataStore.Contents.{Shape, IsStored, contents}
use left_hook_roll.DataStore.Files.{reopen, reset_read_position, answered, read, read_in}
use left_hook_roll.DataStore.Kernel.{BufferMode, ram, file_mode, DataStore, later}
use left_hook_roll.Prelude.Result.{Result, ok, threw, runtime_error}
use left_hook_roll.Prelude.{
  ◌≢◌, if◌then◌else◌, leb, ◌||◌, ◌==◌, length-take, length-drop, ℕ, ◌-◌, ◌≡◌, refl, Bool, true,
  false, Option, none, some, [], min, take, drop, arith, ap, sym, ◌∙◌,
}
use left_hook_roll.DataStore.Readable.{same_contents, same-IsStored, Placed, IsReadable, Gives}

-- On a well-formed store whose calls are served, with the descriptor at the read offset if the
-- contents are in a file, a read returns the next bytes of the contents, as many as it was asked for
-- or as there are, and leaves such a store behind them.
pub read-Gives : (n : ℕ) (s : DataStore) → IsReadable s → Gives n s (read n s)
unfolding read count
read-Gives n s h = go (n == 0 || leb s.current_size s.read_offset) refl
  where
    go :
        (b : Bool)
        → (n == 0 || leb s.current_size s.read_offset) ≡ b
        → Gives n s
            (if b then ok [] s else read_in s.mode (min n (s.current_size - s.read_offset)) s)
    go true e = record {
      bytes = [];
      store = s;
      returns = refl;
      bytes_are = nothing (take n (drop s.read_offset (contents s))) (
          ground (
            arith,
            e,
            h.stored.size_ok,
            length-take n (drop s.read_offset (contents s)),
            length-drop s.read_offset (contents s),
          ));
      moved = omega arith;
      contents_are = refl;
      readable = h;
    }
    go false e = read_in-Gives n s h (ground (arith, e)) (ground (arith, e, h.stored.size_ok))

-- What resetReadPosition makes of a store.
pub record Rewound (s : DataStore) : Type 0 where
  pub store : DataStore
  pub returns : reset_read_position s ≡ ok tt store
  pub at_start : store.read_offset ≡ 0
  pub contents_are : contents store ≡ contents s
  pub readable : IsReadable store

Rewound-to :
    (s t : DataStore)
    → reset_read_position s ≡ ok tt t
    → t.mode ≡ s.mode
    → t.read_offset ≡ 0
    → contents t ≡ contents s
    → IsStored t
    → Placed t.mode t
    → t.replies ≡ []
    → Rewound s
Rewound-to s t e m o c v p r = record {
  store = t;
  returns = e;
  at_start = o;
  contents_are = c;
  readable = record { stored = v; placed = p; within = omega (arith, o); serves = r };
}

-- On a well-formed store whose calls are served, resetReadPosition makes the store readable from the
-- first byte of its contents, wherever its descriptor stood.
pub reset_read_position-Rewound : (s : DataStore) → IsStored s → s.replies ≡ [] → Rewound s
unfolding reset_read_position reopen
reset_read_position-Rewound s v e = go s.mode refl
  where
    start : DataStore
    start = record s { read_offset = 0 }

    reopened : DataStore
    reopened = record s { read_offset = 0; fd = some 0; replies = later s.replies }

    at_fd : s.mode ≡ file_mode → s.fd ≢ none → (o : Option ℕ) → s.fd ≡ o → Rewound s
    at_fd m n none q = absurd (n q)
    at_fd m n (some p) q =
        Rewound-to s reopened
          (ap (λ md. reopen md s.fd start) m
            ∙ ap (λ o. reopen file_mode o start) q
            ∙ ap
                (λ c. elim c as (λ x. Result DataStore (Unit {0})) [
                  | none ↦ threw runtime_error (record (answered start) { fd = none })
                  | some k ↦ ok tt reopened
                ])
                (count_of-nil 1 s.replies e))
          refl refl (same_contents s reopened refl refl refl refl)
          (same-IsStored s reopened refl refl refl refl v (
            subst (λ md. Shape md reopened) (sym m)
              ((subst (λ md. Shape md s) m v.shape_ok).0, (λ e. cc e))))
          (subst (λ md. Placed md reopened) (sym m) refl) (ap later e)

    go : (md : BufferMode) → s.mode ≡ md → Rewound s
    go ram m =
        Rewound-to s start (ap (λ md. reopen md s.fd start) m) refl refl
          (same_contents s start refl refl refl refl)
          (same-IsStored s start refl refl refl refl v
            (subst (λ md. Shape md start) (sym m) (subst (λ md. Shape md s) m v.shape_ok)))
          (subst (λ md. Placed md start) (sym m) tt) e
    go file_mode m = at_fd m (subst (λ md. Shape md s) m v.shape_ok).1 s.fd refl
