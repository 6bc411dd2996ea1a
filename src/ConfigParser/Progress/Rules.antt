-- ===== src/ConfigParser/Progress/Rules.antt =====
-- The postcondition of a parser, and the steps of the token stream under it.
use left_hook_roll.ConfigParser.Tokens.{goes_on, or_error, Stream, Parser, peek, consume, expect}
use left_hook_roll.Prelude.Result.{Result, ok, threw, fatal_exception, ◌>>=◌, ◌>>◌}
use left_hook_roll.Prelude.{
  not, Bool, true, false, ◌<◌, Option, none, some, ◌≡◌, refl, ℕ, ◌≤◌, [], ◌∷◌, length, arith,
}
use left_hook_roll.Text.{Bytes, equal}

-- Started at `s`, the parser returns a good value at a stream that is no longer than `n`, or throws
-- a ConfigException.
abbrev pub Good : {A : Type 0} → (A → Type 0) → ℕ → Result Stream A → Type 0
Good P n (ok a s) = P a × (length s ≤ n)
Good P n (threw e s) = e ≡ fatal_exception

pub Good-weaken :
    {A : Type 0} (P : A → Type 0) (m n : ℕ) (r : Result Stream A) → Good P m r → m ≤ n → Good P n r
Good-weaken P m n (ok a s) (p, h) k = (p, omega arith)
Good-weaken P m n (threw e s) h k = h

pub Good-bind :
    {A B : Type 0} (P : A → Type 0) (Q : B → Type 0) (n : ℕ) (m : Parser A) (f : A → Parser B)
    (s : Stream)
    → Good P n (m s)
    → ((a : A) (s' : Stream) → P a → length s' ≤ n → Good Q n (f a s'))
    → Good Q n ((m >>= f) s)
Good-bind {A} {B} P Q n m f s h k = go (m s) h
  where
    go :
        (r : Result Stream A)
        → Good P n r
        → Good Q n (elim r [ ok a s' ↦ f a s' | threw e s' ↦ threw e s' ])
    go (ok a s') (p, le) = k a s' p le
    go (threw e s') h = h

pub Good-then :
    {A B : Type 0} (P : A → Type 0) (Q : B → Type 0) (n : ℕ) (m : Parser A) (k : Parser B)
    (s : Stream)
    → Good P n (m s)
    → ((s' : Stream) → length s' ≤ n → Good Q n (k s'))
    → Good Q n ((m >> k) s)
Good-then P Q n m k s h c = Good-bind P Q n m (λ _. k) s h (λ a s' p le. c s' le)

abbrev pub Anything : {A : Type 0} → A → Type 0
Anything a = Unit

pub is_fatal : fatal_exception ≡ fatal_exception
is_fatal = refl

consume-Good : (n : ℕ) (s : Stream) → length s ≤ n → Good Anything n (consume s)
unfolding consume
consume-Good n [] h = is_fatal
consume-Good n (t ∷ ts) h = (tt, omega arith)

pub peek-Good : (n : ℕ) (s : Stream) → length s ≤ n → Good Anything n (peek s)
unfolding peek
peek-Good n [] h = is_fatal
peek-Good n (t ∷ ts) h = (tt, h)

pub expect-Good :
    (token : Bytes) (n : ℕ) (s : Stream) → length s ≤ n → Good Anything n (expect token s)
unfolding expect consume
expect-Good token n [] h = is_fatal
expect-Good token n (t ∷ ts) h = ground (arith, is_fatal)

-- One token and the semicolon behind it, as in most directives.
pub one_value-Good :
    {B : Type 0} (Q : B → Type 0) (token : Bytes) (n : ℕ) (s : Stream) (f : Bytes → Parser B)
    → length s ≤ n
    → ((value : Bytes) (s' : Stream) → length s' ≤ n → Good Q n (f value s'))
    → Good Q n ((do value ← consume; expect token; f value) s)
one_value-Good Q token n s f h k =
    Good-bind Anything Q n consume (λ value. expect token >> f value) s (consume-Good n s h)
      (λ value s' _ le.
        Good-then Anything Q n (expect token) (f value) s' (expect-Good token n s' le)
          (λ s'' le'. k value s'' le'))

-- Two tokens and the semicolon behind them.
pub two_values-Good :
    {B : Type 0} (Q : B → Type 0) (token : Bytes) (n : ℕ) (s : Stream)
    (f : Bytes → Bytes → Parser B)
    → length s ≤ n
    → ((a b : Bytes) (s' : Stream) → length s' ≤ n → Good Q n (f a b s'))
    → Good Q n ((do a ← consume; b ← consume; expect token; f a b) s)
two_values-Good Q token n s f h k =
    Good-bind Anything Q n consume (λ a. do b ← consume; expect token; f a b) s (consume-Good n s h)
      (λ a s' _ le. one_value-Good Q token n s' (f a) le (k a))

pub or_error-Good :
    {A : Type 0} (P : A → Type 0) (o : Option A) (n : ℕ) (s : Stream)
    → length s ≤ n
    → ((a : A) → o ≡ some a → P a)
    → Good P n (or_error o s)
or_error-Good P none n s h k = is_fatal
or_error-Good P (some a) n s h k = (k a refl, h)

-- One round of a loop that runs until a closing token.
pub round-Good :
    {A : Type 0} (Q : A → Type 0) (token : Bytes) (n : ℕ) (a : A) (s : Stream)
    (body : Bytes → Parser A)
    → Q a
    → length s ≤ n
    → ((t : Bytes) (ts : Stream) → length ts < length s → Good Q n (body t ts))
    → Good Q n (elim (goes_on token s) [ false ↦ ok a s | true ↦ (consume >>= body) s ])
unfolding goes_on consume
round-Good Q token n a [] body q h k = (q, h)
round-Good Q token n a (t ∷ ts) body q h k = go (not (equal t token))
  where
    go : (b : Bool) → Good Q n (elim b [ false ↦ ok a (t ∷ ts) | true ↦ body t ts ])
    go true = k t ts (omega arith)
    go false = (q, h)
