-- ===== src/Table.antt =====
-- std::map and std::set with integer keys (descriptors, addresses of objects): association lists in
-- the order of the keys, and increasing lists.
use left_hook_roll.Prelude.{
  ◌||◌, some, ltb, arith, none, false, ◌==◌, if◌then◌else◌, Option, ◌≡◌, ◌∷◌, Bool, List, ℕ, [],
  refl,
}

abbrev pub Table {ℓ} : Type ℓ → Type ℓ
Table V = List (ℕ × V)

module _ {ℓ} {V : Type ℓ} where
  unfoldable pub find_key : ℕ → Table V → Option V
  find_key k [] = none
  find_key k ((j, v) ∷ m) = if j == k then some v else find_key k m

  unfoldable pub set_key : ℕ → V → Table V → Table V
  set_key k v [] = (k, v) ∷ []
  set_key k v ((j, w) ∷ m) =
      if j == k then (k, v) ∷ m else if ltb k j then (k, v) ∷ (j, w) ∷ m else (j, w) ∷ set_key k v m

  unfoldable pub erase_key : ℕ → Table V → Table V
  erase_key k [] = []
  erase_key k ((j, w) ∷ m) = let rest = erase_key k m in if j == k then rest else (j, w) ∷ rest

  pub find_key-set_key :
      (k j : ℕ) (v : V) (m : Table V)
      → find_key j (set_key k v m) ≡ (if k == j then some v else find_key j m)
  unfolding find_key set_key
  find_key-set_key k j v [] = refl
  find_key-set_key k j v ((i, w) ∷ m) = ground (arith, find_key-set_key k j v m)

  pub find_key-erase_key :
      (k j : ℕ) (m : Table V) → find_key j (erase_key k m) ≡ (if k == j then none else find_key j m)
  unfolding find_key erase_key
  find_key-erase_key k j [] = ground arith
  find_key-erase_key k j ((i, w) ∷ m) = ground (arith, find_key-erase_key k j m)

abbrev pub Keys : Type 0
Keys = List ℕ

unfoldable pub has_key : ℕ → Keys → Bool
has_key k [] = false
has_key k (j ∷ s) = j == k || has_key k s

unfoldable pub add_key : ℕ → Keys → Keys
add_key k [] = k ∷ []
add_key k (j ∷ s) = if j == k then j ∷ s else if ltb k j then k ∷ j ∷ s else j ∷ add_key k s

unfoldable pub remove_key : ℕ → Keys → Keys
remove_key k [] = []
remove_key k (j ∷ s) = let rest = remove_key k s in if j == k then rest else j ∷ rest

pub has_key-add_key : (k j : ℕ) (s : Keys) → has_key j (add_key k s) ≡ (k == j || has_key j s)
unfolding has_key add_key
has_key-add_key k j [] = refl
has_key-add_key k j (i ∷ s) = ground (arith, has_key-add_key k j s)

pub has_key-remove_key :
    (k j : ℕ) (s : Keys) → has_key j (remove_key k s) ≡ (if k == j then false else has_key j s)
unfolding has_key remove_key
has_key-remove_key k j [] = ground arith
has_key-remove_key k j (i ∷ s) = ground (arith, has_key-remove_key k j s)
