-- ===== src/ServerManager/Returned.antt =====
-- What holds of the manager where a method returns.
use left_hook_roll.Table.{find_key-set_key, set_key, Table, find_key}
use left_hook_roll.Prelude.{==_refl, ap, ◌≡◌, none, some, Option}
use left_hook_roll.ServerManager.State.{
  dangling, with_client, raised, Client, done, Outcome, Method, Pointer, ServerManager, ◌>>◌,
}

-- What a method leaves where it returns.
abbrev pub Returns : {A : Type 0} → (ServerManager → Type 0) → Outcome A → Type 0
Returns P (done a s) = P s
Returns P (raised e s) = Unit
Returns P dangling = Unit

module _ {A B : Type 0} (P Q : ServerManager → Type 0) where
  Returns-next :
      (x : Outcome A) (k : Method B)
      → Returns P x
      → ((s : ServerManager) → P s → Returns Q (k s))
      → Returns Q (elim x as (λ x. Outcome B) [
        | done a t ↦ k t
        | raised e t ↦ raised e t
        | dangling ↦ dangling
      ])
  Returns-next (done a s) k h g = g s h
  Returns-next (raised e s) k h g = tt
  Returns-next dangling k h g = tt

  pub Returns-then :
      (m : Method A) (k : Method B) (s : ServerManager)
      → Returns P (m s)
      → ((t : ServerManager) → P t → Returns Q (k t))
      → Returns Q ((m >> k) s)
  Returns-then m k s h g = Returns-next (m s) k h g

pub Returns-client :
    {A : Type 0} (P : ServerManager → Type 0) (p : Pointer) (k : Client → Method A)
    (s : ServerManager)
    → ((c : Client) → Returns P (k c s))
    → Returns P (with_client p k s)
Returns-client {A} P p k s h = go (find_key p s.clients)
  where
    go :
        (o : Option Client)
        → Returns P (elim o as (λ o. Outcome A) [ none ↦ dangling | some c ↦ k c s ])
    go none = tt
    go (some c) = h c

-- A method of an object that is there.
pub with_client-alive :
    {A : Type 0} (p : Pointer) (k : Client → Method A) (s : ServerManager) (c : Client)
    → find_key p s.clients ≡ some c
    → with_client p k s ≡ k c s
with_client-alive {A} p k s c e =
    ap (λ (o : Option Client). elim o as (λ o. Outcome A) [ none ↦ dangling | some b ↦ k b s ]) e

pub find_key-stored :
    (p : Pointer) (c : Client) (m : Table Client) → find_key p (set_key p c m) ≡ some c
find_key-stored p c m = rw (find_key-set_key p p c m, ==_refl p)
