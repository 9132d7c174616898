-- ===== src/Kernel/Access.antt =====
-- Access to the memory of the calling process, as kernel/syscall/syscall.c gives it to the other
-- system calls: user_range_ok, copy_from_user and copy_to_user.
use void.Base.{ℕ, ◌≡◌, Bool, Option, some, List, length}

pub record UserAccess : Type 1 where
  pub Mem : Type 0
  pub range_ok : Mem → ℕ → ℕ → ℕ → Bool → Bool
  pub copy_from : Mem → ℕ → ℕ → ℕ → Option (List ℕ)
  pub copy_to : Mem → ℕ → ℕ → List ℕ → Option Mem
  pub length-copy_from :
      (m : Mem) (pid p n : ℕ) (xs : List ℕ) → copy_from m pid p n ≡ some xs → length xs ≡ n
