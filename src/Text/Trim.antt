-- ===== src/Text/Trim.antt =====
-- req_utils::trim of src/Request.cpp, and lower-casing.
use left_hook_roll.Prelude.{ℕ, ◌≡◌, refl, false, ◌&&◌, [], ◌∷◌, map, if◌then◌else◌, is_nil, arith}
use left_hook_roll.Text.{Bytes, is_space, to_lower}

-- while (start <= end && isspace(s[start])) ++start;
unfoldable pub trim_start : Bytes → Bytes
unfolding is_space
trim_start [] = []
trim_start (c ∷ cs) = let rest = trim_start cs in if is_space c then rest else c ∷ cs

-- while (end >= start && isspace(s[end])) --end;
trim_end : Bytes → Bytes
trim_end [] = []
trim_end (c ∷ cs) = let rest = trim_end cs in if is_nil rest && is_space c then [] else c ∷ rest

unfoldable pub trim : Bytes → Bytes
unfolding trim_start trim_end is_space
trim s = trim_end (trim_start s)

-- The loops that lower-case a key or a value in place.
unfoldable pub lower : Bytes → Bytes
unfolding to_lower
lower = map to_lower

to_lower_idem : (c : ℕ) → to_lower (to_lower c) ≡ to_lower c
unfolding to_lower
to_lower_idem c = ground arith

lower_idem : (s : Bytes) → lower (lower s) ≡ lower s
unfolding lower
lower_idem [] = refl
lower_idem (c ∷ cs) = unfold lower in cons_eq (to_lower_idem c) (lower_idem cs)
  where
    cons_eq : {a b : ℕ} {s t : Bytes} → a ≡ b → s ≡ t → a ∷ s ≡ b ∷ t
    cons_eq p q = cc

-- Neither end of the text is a space.
abbrev HeadOk : Bytes → Type 0
HeadOk [] = Unit
HeadOk (c ∷ cs) = is_space c ≡ false

abbrev LastOk : Bytes → Type 0
LastOk [] = Unit
LastOk (c ∷ []) = is_space c ≡ false
LastOk (c ∷ d ∷ cs) = LastOk (d ∷ cs)

abbrev pub IsTrimmed : Bytes → Type 0
IsTrimmed s = HeadOk s × LastOk s

trim_start-HeadOk : (s : Bytes) → HeadOk (trim_start s)
unfolding trim_start
trim_start-HeadOk [] = tt
trim_start-HeadOk (c ∷ cs) = ground (arith, trim_start-HeadOk cs)

LastOk-cons : (c : ℕ) (t : Bytes) → LastOk t → (t ≡ [] → is_space c ≡ false) → LastOk (c ∷ t)
LastOk-cons c [] h k = k refl
LastOk-cons c (d ∷ t) h k = h

trim_end-LastOk : (s : Bytes) → LastOk (trim_end s)
unfolding trim_end
trim_end-LastOk [] = tt
trim_end-LastOk (c ∷ cs) = ground (arith, LastOk-cons c (trim_end cs) (trim_end-LastOk cs))

trim_end-HeadOk : (s : Bytes) → HeadOk s → HeadOk (trim_end s)
unfolding trim_end
trim_end-HeadOk [] h = tt
trim_end-HeadOk (c ∷ cs) h = ground arith

trim_end_fixed : (s : Bytes) → LastOk s → trim_end s ≡ s
unfolding trim_end
trim_end_fixed [] h = refl
trim_end_fixed (c ∷ []) h = ground arith
trim_end_fixed (c ∷ d ∷ cs) h = ground (arith, trim_end_fixed (d ∷ cs) h)

trim_start_fixed : (s : Bytes) → HeadOk s → trim_start s ≡ s
unfolding trim_start
trim_start_fixed [] h = refl
trim_start_fixed (c ∷ cs) h = ground arith

trim-IsTrimmed : (s : Bytes) → IsTrimmed (trim s)
unfolding trim
trim-IsTrimmed s =
    (trim_end-HeadOk (trim_start s) (trim_start-HeadOk s), trim_end-LastOk (trim_start s))

-- A text whose ends are no spaces is left as it is.
trim_fixed : (s : Bytes) → IsTrimmed s → trim s ≡ s
unfolding trim
trim_fixed s (h, l) = rw (trim_start_fixed s h) (trim_end_fixed s l)
