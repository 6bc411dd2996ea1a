-- ===== src/Dict.antt =====
-- std::map<std::string, std::string>: an association list in the order of the keys, which is the
-- order in which the sources iterate over it.
use left_hook_roll.Prelude.{
  ◌≡◌, ◌≢◌, refl, Bool, true, false, Option, none, some, List, [], ◌∷◌, if◌then◌else◌, arith,
}
use left_hook_roll.Text.{Bytes, equal, less, equal_iff}

abbrev pub Dict : Type 0
Dict = List (Bytes × Bytes)

-- m.find(k)
unfoldable pub lookup : Bytes → Dict → Option Bytes
lookup k [] = none
lookup k ((j, v) ∷ m) = if equal j k then some v else lookup k m

-- m[k] = v
unfoldable pub insert : Bytes → Bytes → Dict → Dict
insert k v [] = (k, v) ∷ []
insert k v ((j, w) ∷ m) =
    if equal j k
    then (k, v) ∷ m
    else if less k j
    then (k, v) ∷ (j, w) ∷ m
    else (j, w) ∷ insert k v m

-- it == end() ? "" : it->second
abbrev pub or_empty : Option Bytes → Bytes
or_empty none = []
or_empty (some v) = v

abbrev pub is_some {ℓ} : {A : Type ℓ} → Option A → Bool
is_some none = false
is_some (some v) = true

pub lookup-insert :
    (k j v : Bytes) (m : Dict)
    → lookup j (insert k v m) ≡ (if equal k j then some v else lookup j m)
unfolding lookup insert
lookup-insert k j v [] = refl
lookup-insert k j v ((i, w) ∷ m) =
    ground (arith, equal_iff k j, equal_iff i k, equal_iff i j, lookup-insert k j v m)

pub equal_refl : (k : Bytes) → equal k k ≡ true
equal_refl k = (equal_iff k k).1 refl

equal_ne : (k j : Bytes) → k ≢ j → equal k j ≡ false
equal_ne k j n = ground (arith, equal_iff k j)

pub lookup-insert_self : (k v : Bytes) (m : Dict) → lookup k (insert k v m) ≡ some v
lookup-insert_self k v m = simp (lookup-insert, equal_refl)

pub lookup-insert_ne : (k j v : Bytes) (m : Dict) → k ≢ j → lookup j (insert k v m) ≡ lookup j m
lookup-insert_ne k j v m n = rw (lookup-insert k j v m, equal_ne k j n)
