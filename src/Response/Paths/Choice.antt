-- ===== src/Response/Paths/Choice.antt =====
-- The location that `matchLocation` chooses, and the test of `isPathSafe`.
use left_hook_roll.Dict.{equal_refl}
use left_hook_roll.Conf.{LocationConf, ServerConf}
use left_hook_roll.Prelude.{
  ap, suc, if◌then◌else◌, length-append, ◌+◌, ◌-◌, take-length-append, take, ℕ, ◌≤◌, ◌≡◌, ◌≢◌, refl,
  Bool, true, false, ◌&&◌, Option, none, some, List, [], ◌∷◌, ◌++◌, leb, ltb, length, arith, ◌⊎◌,
  inl, inr,
}
use left_hook_roll.Response.Paths.{
  matches, match_loop, match_location, is_path_safe, resolve_path, has_at,
}
use mathlib.Core.Path.{subst}
use left_hook_roll.Text.{Bytes}

-- `l` is one of the locations.
abbrev pub Among : LocationConf → List LocationConf → Type 0
Among l [] = ⊥
Among l (m ∷ ms) = (l ≡ m) ⊎ Among l ms

-- Each location that matches has a path of at most `n` bytes.
abbrev pub AllShort : Bytes → ℕ → List LocationConf → Type 0
AllShort url n [] = Unit
AllShort url n (m ∷ ms) = (matches url m.path ≡ true → length m.path ≤ n) × AllShort url n ms

abbrev pub NoneMatches : Bytes → List LocationConf → Type 0
NoneMatches url [] = Unit
NoneMatches url (m ∷ ms) = (matches url m.path ≡ false) × NoneMatches url ms

-- What the loop returns, started with `best` and `longest`.
abbrev Chosen : Bytes → List LocationConf → Option LocationConf → ℕ → Option LocationConf → Type 0
Chosen url ls best longest none = (best ≡ none) × (longest ≡ 0 → NoneMatches url ls)
Chosen url ls best longest (some l) =
    (((best ≡ some l) × AllShort url longest ls)
      ⊎ (Among l ls
          × (matches url l.path ≡ true)
          × (longest ≤ length l.path)
          × AllShort url (length l.path) ls))

module _ (url : Bytes) (m : LocationConf) (ls : List LocationConf) (best : Option LocationConf)
    (longest : ℕ) where
  -- A round that takes `m`.
  Chosen-taken :
      (r : Option LocationConf)
      → (matches url m.path && leb longest (length m.path)) ≡ true
      → Chosen url ls (some m) (length m.path) r
      → Chosen url (m ∷ ls) best longest r
  Chosen-taken none e (q, h) = absurd (cc q)
  Chosen-taken (some l) e (inl (q, short)) =
      let same : m ≡ l = cc in
      subst (λ l. Chosen url (m ∷ ls) best longest (some l)) same
        (inr (inl refl, ground arith, ground arith, ((λ h. omega arith), short)))
  Chosen-taken (some l) e (inr (among, mt, le, short)) =
      inr (inr among, mt, ground arith, ((λ h. le), short))

  -- A round that leaves `m`.
  Chosen-left :
      (r : Option LocationConf)
      → (matches url m.path && leb longest (length m.path)) ≡ false
      → Chosen url ls best longest r
      → Chosen url (m ∷ ls) best longest r
  Chosen-left none e (q, h) = (q, λ z. (ground arith, h z))
  Chosen-left (some l) e (inl (q, short)) = inl (q, ((λ h. ground arith), short))
  Chosen-left (some l) e (inr (among, mt, le, short)) =
      inr (inr among, mt, le, ((λ h. ground arith), short))

match_loop-Chosen :
    (url : Bytes) (ls : List LocationConf) (best : Option LocationConf) (longest : ℕ)
    → Chosen url ls best longest (match_loop url ls best longest)
unfolding match_loop
match_loop-Chosen url [] none longest = (refl, λ e. tt)
match_loop-Chosen url [] (some l) longest = inl (refl, tt)
match_loop-Chosen url (m ∷ ls) best longest =
    go (matches url m.path && leb longest (length m.path)) refl
      (match_loop-Chosen url ls (some m) (length m.path)) (match_loop-Chosen url ls best longest)
  where
    go :
        (b : Bool)
        → (matches url m.path && leb longest (length m.path)) ≡ b
        → Chosen url ls (some m) (length m.path) (match_loop url ls (some m) (length m.path))
        → Chosen url ls best longest (match_loop url ls best longest)
        → Chosen url (m ∷ ls) best longest (elim b [
          | true ↦ match_loop url ls (some m) (length m.path)
          | false ↦ match_loop url ls best longest
        ])
    go true e h k = Chosen-taken url m ls best longest _ e h
    go false e h k = Chosen-left url m ls best longest _ e k

-- What matchLocation promises of its result.
abbrev pub IsChoice : Bytes → List LocationConf → Option LocationConf → Type 0
IsChoice url ls none = NoneMatches url ls
IsChoice url ls (some l) =
    Among l ls × (matches url l.path ≡ true) × AllShort url (length l.path) ls

-- The location that is chosen is one of the server's, matches the URL, and has the longest path of
-- those that match; none is chosen only if none matches.
pub match_location-IsChoice :
    (url : Bytes) (config : ServerConf) → IsChoice url config.locations (match_location url config)
unfolding match_location
match_location-IsChoice url config =
    go (match_loop url config.locations none 0) (match_loop-Chosen url config.locations none 0)
  where
    go :
        (r : Option LocationConf)
        → Chosen url config.locations none 0 r
        → IsChoice url config.locations r
    go none (q, h) = h refl
    go (some l) (inl (q, short)) = absurd (cc q)
    go (some l) (inr (among, mt, le, short)) = (among, mt, short)

is_path_safe-append : (root t : Bytes) → is_path_safe root (root ++ t) ≡ true
unfolding is_path_safe
is_path_safe-append root t =
    rw (take-length-append root t, equal_refl root) (ground (arith, length-append root t))

take-past : (root t : Bytes) (k : ℕ) → take (length root + k) (root ++ t) ≡ root ++ take k t
take-past [] t k = let e : 0 + k ≡ k = omega arith in rw e
take-past (c ∷ cs) t k =
    let e : suc (length cs) + k ≡ suc (length cs + k) = omega arith in
    rw e (ap (◌∷◌ c) (take-past cs t k))

-- For a URL that is not empty the path test never refuses, whatever `..` the URL holds: the
-- resolved path starts with the root that was put in front of it.
pub is_path_safe_always :
    (root url : Bytes) → url ≢ [] → is_path_safe root (resolve_path root url) ≡ true
unfolding resolve_path
is_path_safe_always root [] h = absurd (h refl)
is_path_safe_always root (c ∷ cs) h = go (ltb 1 (length path) && has_at path (length path - 1) b'/')
  where
    path : Bytes
    path = root ++ (c ∷ cs)

    shortened : is_path_safe root (take (length path - 1) path) ≡ true
    shortened =
        let e : length path - 1 ≡ length root + length cs =
          omega (arith, length-append root (c ∷ cs)) in
        rw e (
          rw (take-past root (c ∷ cs) (length cs))
            (is_path_safe-append root (take (length cs) (c ∷ cs))))

    go : (b : Bool) → is_path_safe root (if b then take (length path - 1) path else path) ≡ true
    go true = shortened
    go false = is_path_safe-append root (c ∷ cs)
