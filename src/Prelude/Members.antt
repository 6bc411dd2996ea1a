-- ===== src/Prelude/Members.antt =====
-- Membership in a list, and the order of members.
use left_hook_roll.Prelude.{inl, inr, ◌⊎◌}
use mathlib.Core.List.{List, [], ◌∷◌, ◌++◌, map}
use mathlib.Core.Path.{◌≡◌, ap}

abbrev pub In : {A : Type 0} → A → List A → Type 0
In x [] = ⊥
In x (y ∷ ys) = (x ≡ y) ⊎ In x ys

pub In-left : {A : Type 0} (x : A) (xs ys : List A) → In x xs → In x (xs ++ ys)
In-left x (y ∷ xs) ys (inl e) = inl e
In-left x (y ∷ xs) ys (inr h) = inr (In-left x xs ys h)
In-left x [] ys h = absurd h

pub In-right : {A : Type 0} (x : A) (xs ys : List A) → In x ys → In x (xs ++ ys)
In-right x [] ys h = h
In-right x (y ∷ xs) ys h = inr (In-right x xs ys h)

pub In-map : {A B : Type 0} (f : A → B) (x : A) (xs : List A) → In x xs → In (f x) (map f xs)
In-map f x (y ∷ xs) (inl e) = inl (ap f e)
In-map f x (y ∷ xs) (inr h) = inr (In-map f x xs h)
In-map f x [] h = absurd h

-- The acts stand in the list in this order.
abbrev pub Then : {A : Type 0} → List A → List A → Type 0
Then [] ys = Unit
Then (x ∷ xs) [] = ⊥
Then (x ∷ xs) (y ∷ ys) = ((x ≡ y) × Then xs ys) ⊎ Then (x ∷ xs) ys

pub Then-later : {A : Type 0} (zs xs ys : List A) → Then zs ys → Then zs (xs ++ ys)
Then-later [] xs ys h = tt
Then-later (z ∷ zs) [] ys h = h
Then-later (z ∷ zs) (x ∷ xs) ys h = inr (Then-later (z ∷ zs) xs ys h)

-- A member of a list, and acts in the list behind it.
pub Then-In :
    {A : Type 0} (z : A) (zs xs ys : List A) → In z xs → Then zs ys → Then (z ∷ zs) (xs ++ ys)
Then-In z zs (x ∷ xs) ys (inl e) h = inl (e, Then-later zs xs ys h)
Then-In z zs (x ∷ xs) ys (inr i) h = inr (Then-In z zs xs ys i h)
Then-In z zs [] ys i h = absurd i

pub Then-one : {A : Type 0} (z : A) (xs : List A) → In z xs → Then (z ∷ []) xs
Then-one z (x ∷ xs) (inl e) = inl (e, tt)
Then-one z (x ∷ xs) (inr i) = inr (Then-one z xs i)
Then-one z [] i = absurd i
