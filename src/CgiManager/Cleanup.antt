-- ===== src/CgiManager/Cleanup.antt =====
-- The cleanup of the processes at the end of the server.
use left_hook_roll.Prelude.Members.{
  Then-later, In-right, Then-one, In-map, Then-In, In-left, In, Then,
}
use left_hook_roll.CgiManager.Processes.{
  ended_in, grace_period, Act, wait_for, kill, has_ended, terminate, found_ended, Pids, Round,
  keep_pids, cleanup_all_processes, grace_loop,
}
use left_hook_roll.Prelude.{
  ◌+◌, leb, ◌||◌, is_nil, Bool-cases, not, ◌⊎◌, ◌≡◌, Bool, [], ◌++◌, map, ◌∷◌, ℕ, List, inl, inr,
}

-- The members of two lists, one of them longer by an element.
In-first :
    {A : Type 0} (p q : A) (xs ys rest : List A)
    → (p ≡ q) ⊎ In p rest
    → (In p rest → In p xs ⊎ In p ys)
    → In p (q ∷ xs) ⊎ In p ys
In-first p q xs ys rest (inl s) h = inl (inl s)
In-first p q xs ys rest (inr t) h = elim (h t) [ inl a ↦ inl (inr a) | inr b ↦ inr b ]

In-second :
    {A : Type 0} (p q : A) (xs ys rest : List A)
    → (p ≡ q) ⊎ In p rest
    → (In p rest → In p xs ⊎ In p ys)
    → In p xs ⊎ In p (q ∷ ys)
In-second p q xs ys rest (inl s) h = inr (inl s)
In-second p q xs ys rest (inr t) h = elim (h t) [ inl a ↦ inl a | inr b ↦ inr (inr b) ]

-- A pid passes a test, or it does not.
In-keep_pids :
    (test : ℕ → Bool) (p : ℕ) (pids : Pids)
    → In p pids
    → In p (keep_pids test pids) ⊎ In p (keep_pids (λ q. not (test q)) pids)
unfolding keep_pids
In-keep_pids test p [] h = absurd h
In-keep_pids test p (q ∷ pids) h =
    let ih = In-keep_pids test p pids in
    elim (Bool-cases (test q)) [
      | inl e ↦
          rw e (In-first p q (keep_pids test pids) (keep_pids (λ r. not (test r)) pids) pids h ih)
      | inr e ↦
          rw e (In-second p q (keep_pids test pids) (keep_pids (λ r. not (test r)) pids) pids h ih)
    ]

-- A process is found to have ended in the grace period, or still runs at its end.
In-grace_loop :
    (start : ℕ) (rounds : List Round) (p : ℕ) (pids : Pids)
    → In p pids
    → In (found_ended p) (grace_loop start rounds pids).0 ⊎ In p (grace_loop start rounds pids).1
unfolding grace_loop
In-grace_loop start [] p pids h = inr h
In-grace_loop start (round ∷ rounds) p pids h =
    elim (Bool-cases (is_nil pids || leb (start + grace_period) round.now)) [
      | inl e ↦ rw e (inr h)
      | inr e ↦ rw e (elim (In-keep_pids (λ q. has_ended (round.wait q)) p pids h) [
        | inl gone ↦ inl (In-left _ _ _ (In-map found_ended p (ended_in round pids) gone))
        | inr runs ↦ elim (In-grace_loop start rounds p remaining runs) [
          | inl a ↦ inl (In-right _ (map found_ended (ended_in round pids)) _ a)
          | inr b ↦ inr b
        ]
      ])
    ]
  where
    remaining : Pids
    remaining = keep_pids (λ q. not (has_ended (round.wait q))) pids

-- SIGTERM, then found to have ended; or SIGTERM, then SIGKILL, then a wait for its end.
abbrev pub IsEnded : ℕ → List Act → Type 0
IsEnded p acts =
    Then (terminate p ∷ found_ended p ∷ []) acts
    ⊎ Then (terminate p ∷ kill p ∷ wait_for p ∷ []) acts

-- At the end of the server no process of a script is left: each is first asked to end by SIGTERM, and
-- after that it is either found to have ended in the grace period, or killed by SIGKILL and only then
-- waited for.
pub cleanup_all_processes-IsEnded :
    (start : ℕ) (rounds : List Round) (pids : Pids) (p : ℕ)
    → In p pids
    → IsEnded p (cleanup_all_processes start rounds pids).0
unfolding cleanup_all_processes
cleanup_all_processes-IsEnded start rounds [] p h = absurd h
cleanup_all_processes-IsEnded start rounds (q ∷ pids) p h =
    elim (In-grace_loop start rounds p (q ∷ pids) h) [
      | inl a ↦ inl (
          after_sigterm (found_ended p ∷ []) (
            Then-one (found_ended p) (graced.0 ++ (map kill graced.1 ++ map wait_for graced.1))
              (In-left (found_ended p) graced.0 _ a)))
      | inr b ↦ inr (
          after_sigterm (kill p ∷ wait_for p ∷ []) (
            Then-later (kill p ∷ wait_for p ∷ []) graced.0
              (map kill graced.1 ++ map wait_for graced.1)
              (Then-In (kill p) (wait_for p ∷ []) (map kill graced.1) (map wait_for graced.1)
                (In-map kill p graced.1 b)
                (Then-one (wait_for p) (map wait_for graced.1) (In-map wait_for p graced.1 b)))))
    ]
  where
    graced : List Act × Pids
    graced = grace_loop start rounds (q ∷ pids)

    after_sigterm :
        (acts : List Act)
        → Then acts (graced.0 ++ (map kill graced.1 ++ map wait_for graced.1))
        → Then
            (terminate p ∷ acts)
            (map terminate (q ∷ pids) ++ (graced.0 ++ (map kill graced.1 ++ map wait_for graced.1)))
    after_sigterm acts =
        Then-In (terminate p) acts (map terminate (q ∷ pids)) _ (In-map terminate p (q ∷ pids) h)
