-- ===== src/Libc.antt =====
-- The memory and string functions of the userland, userland/libc/mem.c.
-- Memory is the byte at every address; the areas do not reach the end of the address space, so an
-- address does not wrap. A loop that looks for a NUL takes fuel, and `none` is a loop that goes on.
pub mod Moves
pub mod Texts
use void.Base.{
  ℕ, zero, suc, ◌+◌, ◌%◌, Bool, true, false, not, ◌&&◌, Option, none, some, ltb, leb, ◌==◌,
  if◌then◌else◌,
}

abbrev pub Mem : Type 0
Mem = ℕ → ℕ

unfoldable pub poke : Mem → ℕ → ℕ → Mem
poke m a v b = if b == a then v else m b

-- `n` bytes from index `i` on, upwards.
unfoldable pub copy_up : ℕ → ℕ → (n : ℕ) → (i : ℕ) → Mem → Mem
unfolding poke
copy_up d s zero i m = m
copy_up d s (suc n) i m = copy_up d s n (i + 1) (poke m (d + i) (m (s + i)))

-- The indices below `n`, downwards.
unfoldable pub copy_down : ℕ → ℕ → (n : ℕ) → Mem → Mem
unfolding poke
copy_down d s zero m = m
copy_down d s (suc n) m = copy_down d s n (poke m (d + n) (m (s + n)))

abbrev pub memcpy : ℕ → ℕ → ℕ → Mem → Mem
memcpy d s n m = copy_up d s n 0 m

unfoldable pub memmove : ℕ → ℕ → ℕ → Mem → Mem
unfolding copy_up copy_down
memmove d s n m = if leb d s then copy_up d s n 0 m else copy_down d s n m

unfoldable pub fill_from : ℕ → ℕ → (n : ℕ) → (i : ℕ) → Mem → Mem
unfolding poke
fill_from d v zero i m = m
fill_from d v (suc n) i m = fill_from d v n (i + 1) (poke m (d + i) v)

abbrev pub memset : ℕ → ℕ → ℕ → Mem → Mem
memset d c n m = fill_from d (c % 256) n 0 m

-- The results -1, 0 and 1.
pub data Order : Type 0 where
  less same more : Order

abbrev pub order_of : ℕ → ℕ → Order
order_of x y = if ltb x y then less else if ltb y x then more else same

unfoldable pub memcmp : Mem → ℕ → ℕ → (n : ℕ) → Order
memcmp m a b zero = same
memcmp m a b (suc n) =
    let rest = memcmp m (a + 1) (b + 1) n in
    if not (m a == m b) then (if ltb (m a) (m b) then less else more) else rest

unfoldable pub strlen : (fuel : ℕ) → Mem → ℕ → Option ℕ
strlen zero m a = none
strlen (suc fuel) m a =
    let rest = elim (strlen fuel m (a + 1)) as (λ o. Option ℕ) [
      | none ↦ none
      | some n ↦ some (suc n)
    ] in
    if m a == 0 then some 0 else rest

-- The source byte is read again, after the write, to see whether it ends the string.
unfoldable pub strcpy : (fuel : ℕ) → ℕ → ℕ → Mem → Option Mem
unfolding poke
strcpy zero d s m = none
strcpy (suc fuel) d s m =
    let m' = poke m d (m s) in
    let rest = strcpy fuel (d + 1) (s + 1) m' in if m' s == 0 then some m' else rest

-- The bytes before the NUL, and zeros from there on.
unfoldable pub strncpy_from : ℕ → ℕ → (n : ℕ) → (i : ℕ) → Mem → Mem
unfolding poke fill_from
strncpy_from d s zero i m = m
strncpy_from d s (suc n) i m =
    let rest = strncpy_from d s n (i + 1) (poke m (d + i) (m (s + i))) in
    if m (s + i) == 0 then fill_from d 0 (suc n) i m else rest

abbrev pub strncpy : ℕ → ℕ → ℕ → Mem → Mem
strncpy d s n m = strncpy_from d s n 0 m

unfoldable pub strcmp : (fuel : ℕ) → Mem → ℕ → ℕ → Option Order
strcmp zero m a b = none
strcmp (suc fuel) m a b =
    let rest = strcmp fuel m (a + 1) (b + 1) in
    if not (m a == 0) && m a == m b then rest else some (order_of (m a) (m b))

unfoldable pub strncmp : Mem → ℕ → ℕ → (n : ℕ) → Order
strncmp m a b zero = same
strncmp m a b (suc n) =
    let rest = strncmp m (a + 1) (b + 1) n in
    if not (m a == m b)
    then (if ltb (m a) (m b) then less else more)
    else if m a == 0
    then same
    else rest
