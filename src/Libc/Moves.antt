-- ===== src/Libc/Moves.antt =====
-- What memcpy, memmove and memset of userland/libc/mem.c leave in memory.
use void.Base.{
  ℕ, zero, suc, ◌+◌, ◌-◌, ◌≤◌, ◌<◌, ◌≡◌, sym, ◌∙◌, ◌≢◌, ◌⊎◌, Bool, true, false, ◌&&◌, ltb, leb,
  ◌==◌, if◌then◌else◌, arith, Bool-cases, inl, inr,
}
use void.Libc.{Mem, poke, copy_up, copy_down, memcpy, memmove}

pub poke_ne : (m : Mem) (a v b : ℕ) → b ≢ a → poke m a v b ≡ m b
unfolding poke
poke_ne m a v b ne = ground arith

pub poke_self : (m : Mem) (a v : ℕ) → poke m a v a ≡ v
unfolding poke
poke_self m a v = ground arith

-- The addresses of `n` bytes from `a` on.
abbrev pub in_area : ℕ → ℕ → ℕ → Bool
in_area a n b = leb a b && ltb b (a + n)

copy_up_lem :
    (d s n i : ℕ) (m : Mem) (b : ℕ)
    → (d ≤ s) ⊎ (s + (i + n) ≤ d)
    → copy_up d s n i m b ≡ (if in_area (d + i) n b then m (s + (b - d)) else m b)
unfolding copy_up
copy_up_lem d s zero i m b apart = ground arith
copy_up_lem d s (suc n) i m b apart =
    let later =
      copy_up_lem d s n (i + 1) (poke m (d + i) (m (s + i))) b
        (elim apart [ inl below ↦ inl below | inr above ↦ inr (omega (arith, above)) ]) in
    elim (Bool-cases (in_area (d + (i + 1)) n b)) [
      | inl inside ↦
          let high : d + (i + 1) ≤ b = ground arith in
          let low : b < d + (i + 1) + n = ground arith in
          let apart_now : s + (b - d) ≢ d + i = elim apart [
            | inl below ↦ omega (arith, below, high)
            | inr above ↦ omega (arith, above, high, low)
          ] in
          let whole : in_area (d + i) (suc n) b ≡ true = ground arith in
          rw whole (later ∙ rw inside (poke_ne m (d + i) (m (s + i)) (s + (b - d)) apart_now))
      | inr outside ↦ elim (Bool-cases (b == d + i)) [
        | inl first ↦
            let at : b ≡ d + i = ground arith in
            let whole : in_area (d + i) (suc n) b ≡ true = ground arith in
            let back : b - d ≡ i = omega (arith, at) in
            rw whole (later ∙ rw (outside, back, at) (poke_self m (d + i) (m (s + i))))
        | inr other ↦
            let ne : b ≢ d + i = ground arith in
            let out : in_area (d + i) (suc n) b ≡ false = ground arith in
            rw out (later ∙ rw outside (poke_ne m (d + i) (m (s + i)) b ne))
      ]
    ]

copy_down_lem :
    (d s n : ℕ) (m : Mem) (b : ℕ)
    → s < d
    → copy_down d s n m b ≡ (if in_area d n b then m (s + (b - d)) else m b)
unfolding copy_down
copy_down_lem d s zero m b above = ground arith
copy_down_lem d s (suc n) m b above =
    let later = copy_down_lem d s n (poke m (d + n) (m (s + n))) b above in
    elim (Bool-cases (in_area d n b)) [
      | inl inside ↦
          let low : b < d + n = ground arith in
          let high : d ≤ b = ground arith in
          let apart_now : s + (b - d) ≢ d + n = omega (arith, above, low, high) in
          let whole : in_area d (suc n) b ≡ true = ground arith in
          rw whole (later ∙ rw inside (poke_ne m (d + n) (m (s + n)) (s + (b - d)) apart_now))
      | inr outside ↦ elim (Bool-cases (b == d + n)) [
        | inl last ↦
            let at : b ≡ d + n = ground arith in
            let whole : in_area d (suc n) b ≡ true = ground arith in
            let back : b - d ≡ n = omega (arith, at) in
            rw whole (later ∙ rw (outside, back, at) (poke_self m (d + n) (m (s + n))))
        | inr other ↦
            let ne : b ≢ d + n = ground arith in
            let out : in_area d (suc n) b ≡ false = ground arith in
            rw out (later ∙ rw outside (poke_ne m (d + n) (m (s + n)) b ne))
      ]
    ]

-- A memmove leaves at each address of its destination the byte that stood at the same place of its
-- source before, however the two areas overlap, and every other byte as it was.
pub memmove_lem :
    (d s n : ℕ) (m : Mem) (b : ℕ)
    → memmove d s n m b ≡ (if in_area d n b then m (s + (b - d)) else m b)
unfolding memmove
memmove_lem d s n m b = elim (Bool-cases (leb d s)) [
  | inl forward ↦
      let start : d + 0 ≡ d = omega arith in
      rw forward (copy_up_lem d s n 0 m b (inl (ground arith)) ∙ rw start)
  | inr backward ↦ rw backward (copy_down_lem d s n m b (ground arith))
]

-- A memcpy does what a memmove does, unless its destination begins inside its source.
pub memcpy-memmove :
    (d s n : ℕ) (m : Mem) (b : ℕ) → (d ≤ s) ⊎ (s + n ≤ d) → memcpy d s n m b ≡ memmove d s n m b
memcpy-memmove d s n m b apart =
    let start : d + 0 ≡ d = omega arith in
    copy_up_lem d s n 0 m b
      (elim apart [ inl below ↦ inl below | inr above ↦ inr (omega (arith, above)) ])
    ∙ rw start (sym (memmove_lem d s n m b))
