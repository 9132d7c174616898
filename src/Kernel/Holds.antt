-- ===== src/Kernel/Holds.antt =====
-- A call keeps an invariant whatever it returns, and a value that it returns has a property. The
-- rules follow the commands of Kernel.antt.
use void.Base.{◌≡◌, refl, ap, ◌∙◌, Bool, true, false, Option, none, some, Ret, ok, err, Errno}
use void.Kernel.{Kernel, Cmd, and_then, require, some_or, try}

pub data Holds {M A : Type 0} (I : Kernel M → Type 0) (Q : A → Kernel M → Type 0)
    : Kernel M × Ret A → Type 0 where
  returns : {a : A} {k : Kernel M} → I k → Q a k → Holds I Q (k, ok a)
  fails : {e : Errno} {k : Kernel M} → I k → Holds I Q (k, err e)

module _ {M : Type 0} {I : Kernel M → Type 0} where
  pub bind :
      {A B : Type 0} {Q : A → Kernel M → Type 0} {R : B → Kernel M → Type 0} {r : Kernel M × Ret A}
      {f : A → Cmd M B}
      → Holds I Q r
      → ((a : A) (k : Kernel M) → I k → Q a k → Holds I R (f a k))
      → Holds I R (and_then r f)
  bind (returns {a} {k} i q) next = next a k i q
  bind (fails i) next = fails i

  pub keeps : {A : Type 0} {Q : A → Kernel M → Type 0} {r : Kernel M × Ret A} → Holds I Q r → I r.0
  keeps (returns i q) = i
  keeps (fails i) = i

  pub some_or-Holds :
      {A : Type 0} (o : Option A) (e : Errno) (k : Kernel M)
      → I k
      → Holds I (λ a k'. (o ≡ some a) × (k' ≡ k)) (some_or o e k)
  some_or-Holds none e k i = fails i
  some_or-Holds (some a) e k i = returns i (refl, refl)

  pub try-Holds :
      {A : Type 0} (r : Ret A) (k : Kernel M)
      → I k
      → Holds I (λ a k'. (r ≡ ok a) × (k' ≡ k)) (try r k)
  try-Holds (ok a) k i = returns i (refl, refl)
  try-Holds (err e) k i = fails i

  pub require-Holds :
      (b : Bool) (e : Errno) (k : Kernel M)
      → I k
      → Holds I (λ _ k'. (b ≡ true) × (k' ≡ k)) (require b e k)
  require-Holds true e k i = returns i (refl, refl)
  require-Holds false e k i = fails i

abbrev pub Any : {M A : Type 0} → A → Kernel M → Type 0
Any a k = Unit {0}

-- The call has not changed the state.
abbrev pub SameState : {M A : Type 0} → Kernel M → A → Kernel M → Type 0
SameState k a k' = k' ≡ k

pub mono :
    {M A : Type 0} {I : Kernel M → Type 0} {Q R : A → Kernel M → Type 0} {r : Kernel M × Ret A}
    → Holds I Q r
    → ((a : A) (k : Kernel M) → Q a k → R a k)
    → Holds I R r
mono (returns i q) f = returns i (f _ _ q)
mono (fails i) f = fails i

-- What a call that returned a value has established.
pub result :
    {M A : Type 0} {I : Kernel M → Type 0} {Q : A → Kernel M → Type 0} {k : Kernel M} {a : A}
    → Holds I Q (k, ok a)
    → I k × Q a k
result (returns i q) = (i, q)

-- A command whose first part returns goes on with its second part.
pub run :
    {M A B : Type 0} {r : Kernel M × Ret A} (f : A → Cmd M B) {k : Kernel M} {a : A}
    {x : Kernel M × Ret B}
    → r ≡ (k, ok a)
    → f a k ≡ x
    → and_then r f ≡ x
run f p q = ap (λ y. and_then y f) p ∙ q

-- A command whose first part fails returns its error.
pub stop :
    {M A B : Type 0} {r : Kernel M × Ret A} (f : A → Cmd M B) {k : Kernel M} {e : Errno}
    → r ≡ (k, err e)
    → and_then r f ≡ (k, err e)
stop f p = ap (λ y. and_then y f) p

pub require-true :
    {M : Type 0} (b : Bool) (e : Errno) (k : Kernel M) → b ≡ true → require b e k ≡ (k, ok tt)
require-true b e k h = rw h
