-- ===== src/ServerManager/Pass.antt =====
-- The turns of a pass of the round robin, and that they come to an end.
use left_hook_roll.Table.{has_key}
use left_hook_roll.ServerManager.Queue.{Requeued-process_one, Requeued}
use left_hook_roll.ServerManager.Returned.{Returns}
use left_hook_roll.Response.State.{Site}
use left_hook_roll.ServerManager.Scheduling.{
  process_one, budget, visit, round_step, run_round_robin, round_loop,
}
use left_hook_roll.Prelude.{
  false, true, ltb→lt, [], ltb, if◌then◌else◌, Bool-cases, length-append, ap, Bool, ◌∷◌, ◌-◌, zero,
  arith, ◌≡◌, ◌+◌, ◌≤◌, length, ◌<◌, suc, List, ℕ, refl, inl, inr,
}
use left_hook_roll.ServerManager.State.{
  dangling, raised, done, Outcome, Method, ServerManager, Pointer, ◌>>◌,
}

-- What may still be done: the pointers in the queue, and the calls of process that are left.
abbrev work : ℕ → ServerManager → ℕ
work n s = length s.processing_queue + (budget - n)

length-Requeued :
    (q : List Pointer) (p : Pointer) (s : ServerManager)
    → Requeued q p s
    → length s.processing_queue ≤ suc (length q)
length-Requeued q p s (inl e) = omega (arith, ap (length {0}) e)
length-Requeued q p s (inr e) = omega (arith, ap (length {0}) e, length-append q (p ∷ []))

-- An outcome that ends the loop.
abbrev pub Stops : Outcome (Unit {0}) → Type 0
Stops (done a s) = ⊥
Stops (raised e s) = Unit
Stops dangling = Unit

-- The loop of a pass as the sources have it, by its turns, without fuel: `Turns sites k n s x` says that
-- after `n` calls of process the loop comes from `s` to the outcome `x` in `k` turns.
pub data Turns (sites : ℕ → Site) : ℕ → ℕ → ServerManager → Outcome (Unit {0}) → Type 0 where
  emptied : {n : ℕ} {s : ServerManager} → s.processing_queue ≡ [] → Turns sites 0 n s (done tt s)
  spent : {n : ℕ} {s : ServerManager} → budget ≤ n → Turns sites 0 n s (done tt s)
  skipped :
      {k n : ℕ} {s : ServerManager} {x : Outcome (Unit {0})} (p : Pointer) (q : List Pointer)
      → s.processing_queue ≡ p ∷ q
      → n < budget
      → has_key p s.processing_set ≡ false
      → Turns sites k n (record s { processing_queue = q }) x
      → Turns sites (suc k) n s x
  processed :
      {k n : ℕ} {s t : ServerManager} {x : Outcome (Unit {0})} (p : Pointer) (q : List Pointer)
      → s.processing_queue ≡ p ∷ q
      → n < budget
      → has_key p s.processing_set ≡ true
      → process_one (sites n) p (record s { processing_queue = q }) ≡ done tt t
      → Turns sites k (n + 1) t x
      → Turns sites (suc k) n s x
  stopped :
      {n : ℕ} {s : ServerManager} (p : Pointer) (q : List Pointer) (x : Outcome (Unit {0}))
      → s.processing_queue ≡ p ∷ q
      → n < budget
      → has_key p s.processing_set ≡ true
      → process_one (sites n) p (record s { processing_queue = q }) ≡ x
      → Stops x
      → Turns sites 1 n s x

-- The loop comes to the outcome within `bound` turns.
pub record TurnsWithin (sites : ℕ → Site) (bound n : ℕ) (s : ServerManager) (x : Outcome (Unit {0}))
    : Type 0 where
  pub count : ℕ
  pub within : count ≤ bound
  pub turns : Turns sites count n s x

-- A loop that is right for less work is right for one turn more.
module _ (sites : ℕ → Site) (again : ℕ → Method (Unit {0})) (bound : ℕ)
    (right : (n : ℕ) (s : ServerManager)
      → work n s < bound
      → TurnsWithin sites (work n s) n s (again n s)) where
  after_process :
      (n : ℕ) (p : Pointer) (q : List Pointer) (s : ServerManager) (x : Outcome (Unit {0}))
      → s.processing_queue ≡ p ∷ q
      → length q + (budget - n) < bound
      → n < budget
      → has_key p s.processing_set ≡ true
      → process_one (sites n) p (record s { processing_queue = q }) ≡ x
      → Returns (Requeued q p) x
      → TurnsWithin sites (work n s) n s (elim x as (λ x. Outcome (Unit {0})) [
        | done a t ↦ again (n + 1) t
        | raised e t ↦ raised e t
        | dangling ↦ dangling
      ])
  after_process n p q s (done a t) e h lt k o r =
      let w = right (n + 1) t (omega (arith, length-Requeued q p t r)) in
      record {
        count = suc w.count;
        within = omega (arith, w.within, length-Requeued q p t r, ap (length {0}) e);
        turns = processed p q e lt k o w.turns;
      }
  after_process n p q s (raised y t) e h lt k o r = record {
    count = 1;
    within = omega (arith, ap (length {0}) e);
    turns = stopped p q (raised y t) e lt k o tt;
  }
  after_process n p q s dangling e h lt k o r = record {
    count = 1;
    within = omega (arith, ap (length {0}) e);
    turns = stopped p q dangling e lt k o tt;
  }

  visit-TurnsWithin :
      (n : ℕ) (p : Pointer) (q : List Pointer) (s : ServerManager)
      → s.processing_queue ≡ p ∷ q
      → work n s < suc bound
      → n < budget
      → TurnsWithin sites (work n s) n s (visit sites again n p (record s { processing_queue = q }))
  unfolding visit
  visit-TurnsWithin n p q s e h lt = go (has_key p s.processing_set) refl
    where
      t : ServerManager
      t = record s { processing_queue = q }

      go :
          (b : Bool)
          → has_key p s.processing_set ≡ b
          → TurnsWithin sites
              (work n s)
              n
              s
              (if b then (process_one (sites n) p >> again (n + 1)) t else again n t)
      go true k =
          after_process n p q s (process_one (sites n) p t) e (omega (arith, h, ap (length {0}) e))
            lt k refl (Requeued-process_one q (sites n) p t refl)
      go false k =
          let w = right n t (omega (arith, h, ap (length {0}) e)) in
          record {
            count = suc w.count;
            within = omega (arith, w.within, ap (length {0}) e);
            turns = skipped p q e lt k w.turns;
          }

  step-TurnsWithin :
      (n : ℕ) (q : List Pointer) (s : ServerManager)
      → s.processing_queue ≡ q
      → work n s < suc bound
      → TurnsWithin sites (work n s) n s (round_step sites again n q s)
  unfolding round_step
  step-TurnsWithin n [] s e h = record { count = 0; within = omega arith; turns = emptied e }
  step-TurnsWithin n (p ∷ q) s e h = elim (Bool-cases (ltb n budget)) [
    | inl lt ↦ rw lt (visit-TurnsWithin n p q s e h (ltb→lt n budget lt))
    | inr over ↦
        rw over (record { count = 0; within = omega arith; turns = spent (ground (arith, over)) })
  ]

round_loop-TurnsWithin :
    (sites : ℕ → Site) (fuel n : ℕ) (s : ServerManager)
    → work n s < fuel
    → TurnsWithin sites (work n s) n s (round_loop sites fuel n s)
unfolding round_loop
round_loop-TurnsWithin sites zero n s h = absurd (omega arith)
round_loop-TurnsWithin sites (suc fuel) n s h =
    step-TurnsWithin sites (round_loop sites fuel) fuel (round_loop-TurnsWithin sites fuel) n
      s.processing_queue s refl h

-- The pass over the processing queue ends: its loop, taken turn by turn as the sources have it, comes
-- to an outcome within one turn for each pointer in the queue and one for each of the BACKLOG / 2 calls
-- of process that it may make, and the model's outcome is that one. Each turn takes the pointer at the
-- front off the queue; a pointer that is not in the processing set is skipped; an exception that leaves
-- the loop is one of the call of process or of what follows it.
pub run_round_robin-TurnsWithin :
    (sites : ℕ → Site) (s : ServerManager)
    → TurnsWithin sites (length s.processing_queue + budget) 0 s (run_round_robin sites s)
unfolding run_round_robin
run_round_robin-TurnsWithin sites s =
    round_loop-TurnsWithin sites (suc (length s.processing_queue + budget)) 0 s (omega arith)
