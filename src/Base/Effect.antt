-- ===== src/Base/Effect.antt =====
-- State-passing computations that end with a value or an error.
pub data Result (E A : Type 0) : Type 0 where
  ok : A → Result E A
  err : E → Result E A

-- From a state to a result and the state after it; what was written before an error stays written.
abbrev pub M : Type 0 → Type 0 → Type 0 → Type 0
M S E A = S → Result E A × S

module _ {S E A : Type 0} where
  abbrev pub pure : A → M S E A
  pure a s = (ok a, s)

  abbrev pub raise : E → M S E A
  raise e s = (err e, s)

module _ {S E A B : Type 0} where
  -- The continuation, on the outcome of the first part.
  abbrev pub and_then : Result E A × S → (A → M S E B) → Result E B × S
  and_then (ok a, s) f = f a s
  and_then (err e, s) f = (err e, s)

infixl 5 ◌>>=◌ ◌>>◌
abbrev pub ◌>>=◌ : {S E A B : Type 0} → M S E A → (A → M S E B) → M S E B
◌>>=◌ m f s = and_then (m s) f

abbrev pub ◌>>◌ : {S E A B : Type 0} → M S E A → M S E B → M S E B
m >> k = m >>= λ _. k

-- An outcome meets `Q` if it is a value, and `X` if it is an error.
abbrev pub Ends : {S E A : Type 0} → (A → S → Type 0) → (E → S → Type 0) → Result E A × S → Type 0
Ends Q X (ok a, s) = Q a s
Ends Q X (err e, s) = X e s

-- Weaker conditions on the outcome.
pub Ends-weaken :
    {S E A : Type 0} (Q Q' : A → S → Type 0) (X X' : E → S → Type 0) (r : Result E A × S)
    → ((a : A) (s : S) → Q a s → Q' a s)
    → ((e : E) (s : S) → X e s → X' e s)
    → Ends Q X r
    → Ends Q' X' r
Ends-weaken Q Q' X X' (ok a, s) f g h = f a s h
Ends-weaken Q Q' X X' (err e, s) f g h = g e s h

module _ {S E A B : Type 0} where
  pub Ends-and_then :
      (Q : A → S → Type 0) (Q' : B → S → Type 0) (X : E → S → Type 0) (r : Result E A × S)
      (f : A → M S E B)
      → Ends Q X r
      → ((a : A) (s : S) → Q a s → Ends Q' X (f a s))
      → Ends Q' X (and_then r f)
  Ends-and_then Q Q' X (ok a, s) f h k = k a s h
  Ends-and_then Q Q' X (err e, s) f h k = h
