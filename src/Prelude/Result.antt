-- ===== src/Prelude/Result.antt =====
-- A method of an object that may throw: it leaves the object in some state in either case.
use Prim.Native.Nat.{ℕ}

-- FatalException, ClientException with its status code, and any other std::exception.
pub data Exception : Type 0 where
  fatal_exception : Exception
  client_exception : ℕ → Exception
  runtime_error : Exception
  -- No exception of the sources: a loop of the model that has used up its fuel.
  out_of_fuel : Exception

pub data Result (S A : Type 0) : Type 0 where
  ok : A → S → Result S A
  threw : Exception → S → Result S A

abbrev pub M : Type 0 → Type 0 → Type 0
M S A = S → Result S A

infixl 5 ◌>>=◌ ◌>>◌
abbrev pub ◌>>=◌ : {S A B : Type 0} → M S A → (A → M S B) → M S B
◌>>=◌ m f s = elim (m s) [ ok a s' ↦ f a s' | threw e s' ↦ threw e s' ]

abbrev pub ◌>>◌ : {S A B : Type 0} → M S A → M S B → M S B
◌>>◌ m k s = elim (m s) [ ok a s' ↦ k s' | threw e s' ↦ threw e s' ]

-- The object that a method leaves behind, whether it returned or threw.
abbrev pub after : {S A : Type 0} → Result S A → S
after (ok a s) = s
after (threw e s) = s

-- What a constructor ends in: the object, or an exception and no object.
pub data Made (A : Type 0) : Type 0 where
  made : A → Made A
  unmade : Exception → Made A
