-- ===== src/Base/Results.antt =====
-- The VE_* error numbers of kernel/include/syscall/syscall.h, and results that carry one.
use mathlib.Core.Path.{◌≡◌, refl}
use mathlib.Core.Logic.{◌⊎◌, inl, inr}

-- A negative return value `-VE_X` is `err x`.
pub data Errno : Type 0 where
  perm noent io badf child nomem fault inval nosys : Errno
  name_too_long is_dir not_dir acces space exist busy : Errno

pub data Ret {ℓ} (A : Type ℓ) : Type ℓ where
  ok : A → Ret A
  err : Errno → Ret A

infixl 5 ◌>>=◌
abbrev pub ◌>>=◌ {ℓ κ} : {A : Type ℓ} {B : Type κ} → Ret A → (A → Ret B) → Ret B
ok a >>= f = f a
err e >>= f = err e

pub Ret-cases {ℓ} : {A : Type ℓ} (r : Ret A) → ((a : A) × (r ≡ ok a)) ⊎ ((e : Errno) × (r ≡ err e))
Ret-cases (ok a) = inl (a, refl)
Ret-cases (err e) = inr (e, refl)
