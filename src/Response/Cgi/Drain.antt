-- ===== src/Response/Cgi/Drain.antt =====
-- `_drainDataStore` when the kernel serves.
use mathlib.Core.Path.{subst}
use left_hook_roll.DataStore.Contents.{IsStored, contents}
use left_hook_roll.DataStore.Files.{read}
use left_hook_roll.DataStore.Kernel.{DataStore}
use left_hook_roll.DataStore.Readable.{IsReadable, Gives}
use left_hook_roll.DataStore.Reads.{Rewound, read-Gives, reset_read_position-Rewound}
use left_hook_roll.DataStore.ReadSteps.{nothing}
use left_hook_roll.Prelude.Result.{Result, ok, threw}
use left_hook_roll.Prelude.{
  ℕ, zero, suc, ◌+◌, ◌-◌, ◌<◌, ◌≡◌, refl, Bool, true, false, [], ◌∷◌, ◌++◌, if◌then◌else◌, is_nil,
  length, take, drop, arith, ap, sym, ◌∙◌, append-nil, append_assoc, drop-add, length-take,
  take-append-drop, take-min,
}
use left_hook_roll.Response.Cgi.{drain_data_store, drain_loop}
use left_hook_roll.Response.State.{Response}
use left_hook_roll.Text.{Bytes}

abbrev pub with_store : Response → DataStore → Response
with_store r t = record r { response_data_store = t }

-- All of the store from the read offset on, behind what had been read.
record Drained (result : Bytes) (r : Response) (x : Result Response Bytes) : Type 0 where
  store : DataStore
  returns :
      x
      ≡ ok
          (result ++ drop r.response_data_store.read_offset (contents r.response_data_store))
          (with_store r store)
  contents_are : contents store ≡ contents r.response_data_store

is_nil-length : (xs : Bytes) → is_nil xs ≡ true → length xs ≡ 0
is_nil-length [] e = refl
is_nil-length (x ∷ xs) e = absurd (cc e)

not_nil-length : (xs : Bytes) → is_nil xs ≡ false → 0 < length xs
not_nil-length [] e = absurd (cc e)
not_nil-length (x ∷ xs) e = omega arith

-- The next `n` bytes, and what is behind them.
split_next :
    (n off : ℕ) (c bytes : Bytes)
    → bytes ≡ take n (drop off c)
    → bytes ++ drop (off + length bytes) c ≡ drop off c
split_next n off c bytes e =
    ap (λ t. bytes ++ t) (sym (drop-add off (length bytes) c))
    ∙ ap (λ b. b ++ drop (length bytes) (drop off c))
        (e
          ∙ take-min n (drop off c)
          ∙ ap (λ k. take k (drop off c)) (sym (ap length e ∙ length-take n (drop off c))))
    ∙ take-append-drop (length bytes) (drop off c)

module _ (fuel : ℕ) (result : Bytes) (r : Response)
    (g : Gives 16384 r.response_data_store (read 16384 r.response_data_store)) where
  next : Bool → Result Response Bytes
  next b =
      if b
      then ok result (with_store r g.store)
      else drain_loop fuel (result ++ g.bytes) (with_store r g.store)

  drain_loop-next : drain_loop (suc fuel) result r ≡ next (is_nil g.bytes)
  unfolding drain_loop next
  drain_loop-next =
      ap
        (λ q.
          elim (elim q as (λ x. Result Response Bytes) [
            | ok a s ↦ ok a (with_store r s)
            | threw e s ↦ threw e (with_store r s)
          ])
            as (λ x. Result Response Bytes) [
              | ok bytes s ↦
                  if is_nil bytes then ok result s else drain_loop fuel (result ++ bytes) s
              | threw e s ↦ threw e s
            ])
        g.returns

  abbrev all : Bytes
  all = contents r.response_data_store

  abbrev from : ℕ
  from = r.response_data_store.read_offset

  at_end : is_nil g.bytes ≡ true → drop from all ≡ []
  at_end e =
      let z : length g.bytes ≡ 0 = is_nil-length g.bytes e in
      sym (
        nothing (drop from all)
          (omega (arith, z, ap length g.bytes_are, length-take 16384 (drop from all))))

  go_on :
      Drained
        (result ++ g.bytes)
        (with_store r g.store)
        (drain_loop fuel (result ++ g.bytes) (with_store r g.store))
      → Drained result r (drain_loop fuel (result ++ g.bytes) (with_store r g.store))
  go_on k = record {
    store = k.store;
    returns =
        k.returns
        ∙ ap (λ t. ok t (with_store r k.store))
            (append_assoc result g.bytes (drop g.store.read_offset (contents g.store))
              ∙ ap (λ t. result ++ t)
                  (ap (λ n. g.bytes ++ drop n (contents g.store)) g.moved
                    ∙ ap (λ c. g.bytes ++ drop (from + length g.bytes) c) g.contents_are
                    ∙ split_next 16384 from all g.bytes g.bytes_are));
    contents_are = k.contents_are ∙ g.contents_are;
  }

  Drained-next :
      (is_nil g.bytes ≡ false
        → Drained
            (result ++ g.bytes)
            (with_store r g.store)
            (drain_loop fuel (result ++ g.bytes) (with_store r g.store)))
      → (b : Bool) → is_nil g.bytes ≡ b
      → Drained result r (next b)
  unfolding next
  Drained-next k true e = record {
    store = g.store;
    returns =
        ap (λ t. ok t (with_store r g.store))
          (sym (append-nil result) ∙ ap (λ t. result ++ t) (sym (at_end e)));
    contents_are = g.contents_are;
  }
  Drained-next k false e = go_on (k e)

drain_loop-Drained :
    (fuel : ℕ) (result : Bytes) (r : Response)
    → IsReadable r.response_data_store
    → length (contents r.response_data_store) - r.response_data_store.read_offset < fuel
    → Drained result r (drain_loop fuel result r)
drain_loop-Drained zero result r h l = absurd (omega arith)
drain_loop-Drained (suc fuel) result r h l =
    let g : Gives 16384 r.response_data_store (read 16384 r.response_data_store) =
      read-Gives 16384 r.response_data_store h in
    subst (Drained result r) (sym (drain_loop-next fuel result r g)) (
      Drained-next fuel result r g
        (λ e.
          let some_bytes : 0 < length g.bytes = not_nil-length g.bytes e in
          drain_loop-Drained fuel (result ++ g.bytes) (with_store r g.store) g.readable
            (omega (arith, g.moved, ap length g.contents_are, some_bytes, g.readable.within)))
        (is_nil g.bytes) refl)

-- With every call of the store served, _drainDataStore returns all that the script has written, in
-- order, wherever the descriptor and the read offset stood.
pub drain_data_store-contents :
    (r : Response)
    → IsStored r.response_data_store
    → r.response_data_store.replies ≡ []
    → (t : DataStore) × (drain_data_store r ≡ ok (contents r.response_data_store) (with_store r t))
      × (contents t ≡ contents r.response_data_store)
unfolding drain_data_store
drain_data_store-contents r v e = (d.store, returned, d.contents_are ∙ w.contents_are)
  where
    w : Rewound r.response_data_store
    w = reset_read_position-Rewound r.response_data_store v e

    d :
        Drained []
          (with_store r w.store)
          (drain_loop (suc w.store.current_size) [] (with_store r w.store))
    d =
        drain_loop-Drained (suc w.store.current_size) [] (with_store r w.store) w.readable
          (omega (arith, w.readable.stored.size_ok))

    returned : drain_data_store r ≡ ok (contents r.response_data_store) (with_store r d.store)
    returned =
        ap
          (λ q.
            elim (elim q as (λ x. Result Response (Unit {0})) [
              | ok a s ↦ ok a (with_store r s)
              | threw x s ↦ threw x (with_store r s)
            ])
              as (λ x. Result Response Bytes) [
                | ok a s ↦ drain_loop (suc s.response_data_store.current_size) [] s
                | threw x s ↦ threw x s
              ])
          w.returns
        ∙ d.returns
        ∙ ap (λ t. ok t (with_store r d.store))
            (ap (λ n. drop n (contents w.store)) w.at_start ∙ w.contents_are)
