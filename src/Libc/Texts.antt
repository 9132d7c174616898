-- ===== src/Libc/Texts.antt =====
-- The string functions of userland/libc/mem.c on strings that stand in memory.
use void.Base.{
  ℕ, zero, suc, ◌+◌, ◌<◌, ◌≡◌, ◌∙◌, ◌≢◌, ◌⊎◌, false, some, [], ◌∷◌, length, ◌==◌, if◌then◌else◌,
  arith, Bool-cases, inl, inr,
}
use void.Base.Strings.{CString}
use void.Libc.{Mem, Order, less, same, more, order_of, poke, strlen, strcpy, strcmp}
use void.Libc.Moves.{poke_ne, poke_self}

-- The bytes of the string and its NUL stand from `a` on.
abbrev pub HoldsText : Mem → ℕ → CString → Type 0
HoldsText m a [] = m a ≡ 0
HoldsText m a (c ∷ s) = (m a ≡ c) × (c ≢ 0) × HoldsText m (a + 1) s

-- The order of a dictionary, by the values of the bytes.
abbrev pub lex : CString → CString → Order
lex [] [] = same
lex [] (y ∷ ys) = less
lex (x ∷ xs) [] = more
lex (x ∷ xs) (y ∷ ys) = if x == y then lex xs ys else order_of x y

-- strlen of a string in memory ends, with its length.
pub strlen_lem :
    (fuel : ℕ) (m : Mem) (a : ℕ) (s : CString)
    → HoldsText m a s
    → length s < fuel
    → strlen fuel m a ≡ some (length s)
unfolding strlen
strlen_lem zero m a s h enough = absurd (omega arith)
strlen_lem (suc fuel) m a [] h enough = ground (arith, h)
strlen_lem (suc fuel) m a (c ∷ s) h enough =
    ground (arith, h.0, h.1, strlen_lem fuel m (a + 1) s h.2 (omega arith))

-- strcmp of two strings in memory ends, and orders them as a dictionary does.
pub strcmp_lem :
    (fuel : ℕ) (m : Mem) (a b : ℕ) (s t : CString)
    → HoldsText m a s
    → HoldsText m b t
    → length s < fuel
    → strcmp fuel m a b ≡ some (lex s t)
unfolding strcmp
strcmp_lem zero m a b s t h g enough = absurd (omega arith)
strcmp_lem (suc fuel) m a b [] [] h g enough = ground (arith, h, g)
strcmp_lem (suc fuel) m a b [] (y ∷ t) h g enough = ground (arith, h, g.0, g.1)
strcmp_lem (suc fuel) m a b (x ∷ s) [] h g enough = ground (arith, h.0, h.1, g)
strcmp_lem (suc fuel) m a b (x ∷ s) (y ∷ t) h g enough = elim (Bool-cases (x == y)) [
  | inl equal ↦
      ground (arith, h.0, h.1, g.0, strcmp_lem fuel m (a + 1) (b + 1) s t h.2 g.2 (omega arith))
  | inr other ↦ ground (arith, h.0, h.1, g.0)
]

text_poke :
    (m : Mem) (a d v : ℕ) (s : CString)
    → (d < a) ⊎ (a + length s < d)
    → HoldsText m a s
    → HoldsText (poke m d v) a s
text_poke m a d v [] apart h =
    poke_ne m d v a (elim apart [ inl low ↦ omega (arith, low) | inr high ↦ omega (arith, high) ])
    ∙ h
text_poke m a d v (c ∷ s) apart h = (
  poke_ne m d v a (elim apart [ inl low ↦ omega (arith, low) | inr high ↦ omega (arith, high) ])
      ∙ h.0,
  h.1,
  text_poke m (a + 1) d v s
      (elim apart [ inl low ↦ inl (omega (arith, low)) | inr high ↦ inr (omega (arith, high)) ])
      h.2,
)

pub record Copied (m : Mem) (d : ℕ) (text : CString) (m' : Mem) : Type 0 where
  pub there : HoldsText m' d text
  pub others : (b : ℕ) → (b < d) ⊎ (d + length text < b) → m' b ≡ m b

strcpy_next :
    (fuel d s : ℕ) (m : Mem) {c : ℕ} {m' : Mem}
    → c ≢ 0
    → poke m d (m s) s ≡ c
    → strcpy fuel (d + 1) (s + 1) (poke m d (m s)) ≡ some m'
    → strcpy (suc fuel) d s m ≡ some m'
unfolding strcpy
strcpy_next fuel d s m {c} ne e later =
    let present : (poke m d (m s) s == 0) ≡ false = ground (arith, e, ne) in
    rw (strcpy, present) later

-- strcpy of a string that its copy does not meet ends, with the string at the destination and all
-- other bytes as they were.
pub strcpy_lem :
    (fuel : ℕ) (d s : ℕ) (m : Mem) (text : CString)
    → HoldsText m s text
    → (d + length text < s) ⊎ (s + length text < d)
    → length text < fuel
    → (m' : Mem) × (strcpy fuel d s m ≡ some m') × Copied m d text m'
unfolding strcpy
strcpy_lem zero d s m text h apart enough = absurd (omega arith)
strcpy_lem (suc fuel) d s m [] h apart enough =
    let m' = poke m d (m s) in
    let differ : s ≢ d = elim apart [
      | inl low ↦ omega (arith, low)
      | inr high ↦ omega (arith, high)
    ] in
    let ends : m' s ≡ 0 = poke_ne m d (m s) s differ ∙ h in
    (
      m',
      ground (arith, ends),
      record {
        there = poke_self m d (m s) ∙ h;
        others = λ b out.
            poke_ne m d (m s) b
              (elim out [ inl low ↦ omega (arith, low) | inr high ↦ omega (arith, high) ]);
      },
    )
strcpy_lem (suc fuel) d s m (c ∷ text) h apart enough =
    let one = poke m d (m s) in
    let differ : s ≢ d = elim apart [
      | inl low ↦ omega (arith, low)
      | inr high ↦ omega (arith, high)
    ] in
    let goes_on : one s ≡ c = poke_ne m d (m s) s differ ∙ h.0 in
    let next =
      strcpy_lem fuel (d + 1) (s + 1) one text
        (text_poke m (s + 1) d (m s) text
          (elim apart [ inl low ↦ inl (omega (arith, low)) | inr high ↦ inr (omega (arith, high)) ])
          h.2)
        (elim apart [ inl low ↦ inl (omega (arith, low)) | inr high ↦ inr (omega (arith, high)) ])
        (omega arith) in
    (
      next.0,
      strcpy_next fuel d s m h.1 goes_on next.1,
      record {
        there =
            (next.2.others d (inl (omega arith)) ∙ (poke_self m d (m s) ∙ h.0), h.1, next.2.there);
        others = λ b out.
            next.2.others b (elim out [
              | inl low ↦ inl (omega (arith, low))
              | inr high ↦ inr (omega (arith, high))
            ])
            ∙ poke_ne m d (m s) b
                (elim out [ inl low ↦ omega (arith, low) | inr high ↦ omega (arith, high) ]);
      },
    )
