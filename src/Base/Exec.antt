-- ===== src/Base/Exec.antt =====
-- Methods that change an object and may raise an exception: what was changed before the exception
-- stays changed.
use warptap.Base.Results.{Result, ok, err}

abbrev pub Exec : Type 0 → Type 0 → Type 0 → Type 0
Exec E S A = S → Result E A × S

module _ {E S A : Type 0} where
  abbrev pub pure : A → Exec E S A
  pure a state = (ok a, state)

  -- the result of a call that does not change the object
  abbrev pub lift : Result E A → Exec E S A
  lift r state = (r, state)

  abbrev pub gets : (S → A) → Exec E S A
  gets f state = (ok (f state), state)

module _ {E S : Type 0} where
  abbrev pub modify : (S → S) → Exec E S (Unit {0})
  modify f state = (ok tt, f state)

module _ {E S A B : Type 0} where
  abbrev pub continue : (A → Exec E S B) → Result E A × S → Result E B × S
  continue f (ok a, state) = f a state
  continue f (err e, state) = (err e, state)

  infixl 5 ◌>>=◌ ◌>>◌
  abbrev pub ◌>>=◌ : Exec E S A → (A → Exec E S B) → Exec E S B
  ◌>>=◌ m f state = continue f (m state)

  abbrev pub ◌>>◌ : Exec E S A → Exec E S B → Exec E S B
  m >> n = m >>= λ _. n
