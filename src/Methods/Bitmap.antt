-- ===== src/Methods/Bitmap.antt =====
-- The bitmap as a set of methods: what adding and removing a method do to each of them.
use left_hook_roll.Methods.{
  HttpMethod, unknown_method, get, post, delete, AllowedMethods, add_method, remove_method,
  is_allowed, string_to_method, method_to_string,
}
use left_hook_roll.Prelude.{
  ◌⊎◌, inl, ltb, ℕ, zero, suc, ◌<◌, ◌≡◌, refl, Bool, true, false, not, ◌&&◌, ◌||◌, arith,
  if◌then◌else◌,
}
use left_hook_roll.Text.{Bytes, equal, equal_iff, codes}

-- Every bitmap that the operations build holds the three methods' bits alone.
abbrev pub IsBitmap : AllowedMethods → Type 0
IsBitmap a = a.bitmap < 8

abbrev pub same : HttpMethod → HttpMethod → Bool
same unknown_method n = false
same get get = true
same post post = true
same delete delete = true
same m n = false

-- A test passes at every number below a bound.
passes : (ℕ → Bool) → ℕ → Bool
passes test zero = true
passes test (suc bound) = if test bound then passes test bound else false

passes_at :
    (test : ℕ → Bool) (bound at : ℕ) → passes test bound ≡ true → at < bound → test at ≡ true
unfolding passes
passes_at test zero at all below = absurd (omega arith)
passes_at test (suc bound) at all below = ground (arith, passes_at test bound at)

abbrev eqb : Bool → Bool → Bool
eqb true b = b
eqb false b = not b

eqb_sound : (a b : Bool) → eqb a b ≡ true → a ≡ b
eqb_sound a b h = ground arith

abbrev with_bitmap : ℕ → AllowedMethods
with_bitmap b = record { bitmap = b }

added : HttpMethod → HttpMethod → ℕ → Bool
added m n x =
    eqb (is_allowed (add_method (with_bitmap x) m) n) (same m n || is_allowed (with_bitmap x) n)
    && (ltb (add_method (with_bitmap x) m).bitmap 8
        && not (is_allowed (with_bitmap x) unknown_method))

added_table : (m n : HttpMethod) → passes (added m n) 8 ≡ true
unfolding added passes is_allowed add_method
added_table unknown_method unknown_method = refl
added_table unknown_method _ = refl
added_table get unknown_method = refl
added_table get _ = refl
added_table post unknown_method = refl
added_table post _ = refl
added_table delete unknown_method = refl
added_table delete _ = refl

removed : HttpMethod → HttpMethod → ℕ → Bool
removed m n x =
    eqb (is_allowed (remove_method (with_bitmap x) m) n)
      (not (same m n) && is_allowed (with_bitmap x) n)
    && ltb (remove_method (with_bitmap x) m).bitmap 8

removed_table : (m n : HttpMethod) → passes (removed m n) 8 ≡ true
unfolding removed passes is_allowed remove_method
removed_table unknown_method unknown_method = refl
removed_table unknown_method _ = refl
removed_table get unknown_method = refl
removed_table get _ = refl
removed_table post unknown_method = refl
removed_table post _ = refl
removed_table delete unknown_method = refl
removed_table delete _ = refl

module _ (a : AllowedMethods) (m n : HttpMethod) where
  -- On a bitmap of the three methods, adding a method allows that one and those that were allowed,
  -- and removing a method leaves those that were allowed but for that one. Both results are
  -- bitmaps of the three methods again. The unknown method is never allowed.
  pub is_allowed-add_method-remove_method :
      IsBitmap a
      → (is_allowed (add_method a m) n ≡ (same m n || is_allowed a n))
        × (is_allowed (remove_method a m) n ≡ (not (same m n) && is_allowed a n))
        × IsBitmap (add_method a m)
        × IsBitmap (remove_method a m)
        × (is_allowed a unknown_method ≡ false)
  unfolding added removed
  is_allowed-add_method-remove_method h = ground (
    arith,
    passes_at (added m n) 8 a.bitmap (added_table m n) h,
    passes_at (removed m n) 8 a.bitmap (removed_table m n) h,
  )

pub add_method-IsBitmap :
    (a : AllowedMethods) (m : HttpMethod) → IsBitmap a → IsBitmap (add_method a m)
add_method-IsBitmap a m h = (is_allowed-add_method-remove_method a m get h).2

-- The names and the methods: reading a name that was printed gives the method back, and a text is
-- read as a known method only if it is that method's name.
pub string_to_method-method_to_string :
    (m : HttpMethod) (s : Bytes)
    → (string_to_method (method_to_string m) ≡ m)
      × (string_to_method s ≡ m → (m ≡ unknown_method) ⊎ (s ≡ method_to_string m))
unfolding method_to_string string_to_method equal
string_to_method-method_to_string m s = (names m, known m)
  where
    names : (m : HttpMethod) → string_to_method (method_to_string m) ≡ m
    names unknown_method = refl
    names _ = refl

    known :
        (m : HttpMethod) → string_to_method s ≡ m → (m ≡ unknown_method) ⊎ (s ≡ method_to_string m)
    known unknown_method e = inl refl
    known _ e =
        ground (
          arith,
          equal_iff s (codes "GET"),
          equal_iff s (codes "POST"),
          equal_iff s (codes "DELETE"),
        )
