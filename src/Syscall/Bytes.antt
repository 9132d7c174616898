-- ===== src/Syscall/Bytes.antt =====
-- Bytes of physical memory, as kernel/syscall/syscall.c reads and writes them.
use void.Base.{
  ℕ, zero, suc, ◌+◌, ◌-◌, ◌*◌, ◌/◌, ◌%◌, ◌<◌, ◌≡◌, refl, List, [], ◌∷◌, ltb, leb, ◌&&◌, get_or,
  length, ◌==◌, if◌then◌else◌, arith, Bool-cases, inl, inr, All,
}
use void.Mm.Vmm.{Mem}
use void.Syscall.{byte_at, put_at, byte, put_byte, read_run, write_run}

byte_at-put_at :
    (j k w b : ℕ) → b < 256 → byte_at j (put_at k w b) ≡ (if j == k then b else byte_at j w)
byte_at-put_at zero zero w b h = omega arith
byte_at-put_at zero (suc k) w b h = ground arith
byte_at-put_at (suc j) zero w b h =
    let same : (w / 256 * 256 + b) / 256 ≡ w / 256 = omega arith in rw same (ground arith)
byte_at-put_at (suc j) (suc k) w b h =
    let rest : (w % 256 + 256 * put_at k (w / 256) b) / 256 ≡ put_at k (w / 256) b = omega arith in
    rw rest (ground (arith, byte_at-put_at j k (w / 256) b h))

-- A write changes the byte at its address and no other.
pub byte-put_byte :
    (m : Mem) (a b c : ℕ) → b < 256 → byte (put_byte m a b) c ≡ (if c == a then b else byte m c)
unfolding byte put_byte
byte-put_byte m a b c h = elim (Bool-cases (c / 8 == a / 8)) [
  | inl same ↦
      let word : c / 8 ≡ a / 8 = ground arith in
      let inside : (c % 8 == a % 8) ≡ (c == a) = ground arith in
      rw (same, byte_at-put_at (c % 8) (a % 8) (m (a / 8)) b h, inside, word) refl
  | inr other ↦ rw other (ground arith)
]

-- So does a run of writes.
pub byte-write_run :
    (bs : List ℕ) (m : Mem) (a c : ℕ)
    → All (λ b. b < 256) bs
    → byte (write_run a bs m) c
      ≡ (if leb a c && ltb c (a + length bs) then get_or bs (c - a) 0 else byte m c)
unfolding write_run
byte-write_run [] m a c h = ground arith
byte-write_run (b ∷ bs) m a c h =
    let later = byte-write_run bs (put_byte m a b) (a + 1) c h.1 in
    let first = byte-put_byte m a b c h.0 in
    elim (Bool-cases (ltb a c)) [
      | inl above ↦
          let next : c - a ≡ suc (c - (a + 1)) = ground arith in
          rw next (ground (arith, later, first))
      | inr below ↦ elim (Bool-cases (c == a)) [
        | inl same ↦ let here : c - a ≡ 0 = ground arith in rw here (ground (arith, later, first))
        | inr under ↦ ground (arith, later, first)
      ]
    ]

pub length-read_run : (n : ℕ) (m : Mem) (a : ℕ) → length (read_run m a n) ≡ n
unfolding read_run
length-read_run zero m a = refl
length-read_run (suc n) m a = omega (arith, length-read_run n m (a + 1))
