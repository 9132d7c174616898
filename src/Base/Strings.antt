-- ===== src/Base/Strings.antt =====
-- C strings as the lists of their bytes before the NUL, and their comparison loop, which the source
-- writes out wherever it compares two strings.
use Prim.Native.Nat.{ℕ}
use mathlib.Core.Path.{◌≡◌, refl}
use mathlib.Core.Bool.{Bool, true, false}
use mathlib.Core.List.{List, [], ◌∷◌}
use native.Mathlib.Omega.{arith}
use void.Base.Tests.{◌==◌, if◌then◌else◌}

abbrev pub CString : Type 0
CString = List ℕ

unfoldable pub streq : CString → CString → Bool
streq [] [] = true
streq [] (y ∷ ys) = false
streq (x ∷ xs) [] = false
streq (x ∷ xs) (y ∷ ys) = if x == y then streq xs ys else false

pub streq_refl : (s : CString) → streq s s ≡ true
unfolding streq
streq_refl [] = refl
streq_refl (x ∷ xs) = ground (arith, streq_refl xs)

pub streq_eq : (s t : CString) → streq s t ≡ true → s ≡ t
unfolding streq
streq_eq [] [] h = refl
streq_eq [] (y ∷ ys) h = cc
streq_eq (x ∷ xs) [] h = cc
streq_eq (x ∷ xs) (y ∷ ys) h = ground (arith, streq_eq xs ys)

pub streq_comm : (s t : CString) → streq s t ≡ streq t s
unfolding streq
streq_comm [] [] = refl
streq_comm [] (y ∷ ys) = refl
streq_comm (x ∷ xs) [] = refl
streq_comm (x ∷ xs) (y ∷ ys) = ground (arith, streq_comm xs ys)
