-- ===== src/Elf/Reads.antt =====
-- The reads of kernel/elf/elf.c from an image: within the image none of them faults.
use void.Base.{
  ℕ, zero, suc, ◌+◌, ◌*◌, ◌≤◌, ◌<◌, ◌^◌, ◌≡◌, ◌≢◌, refl, Bool, true, false, some, List, [], ◌∷◌,
  length, get_elem?, arith, All,
}
use mathlib.Core.Path.{subst}
use void.Elf.{copy_bytes}
use void.Elf.Format.{
  Status, Outcome, done, refused, fault, ◌>>=◌, require, Image, field_at, Ehdr, Phdr, read_ehdr,
  read_phdr,
}

-- An outcome that is no fault, with a property of the value that is returned.
pub data Ends {A : Type 0} (P : A → Type 0) : Outcome A → Type 0 where
  returns : {a : A} → P a → Ends P (done a)
  refuses : {s : Status} → Ends P (refused s)

module _ {A : Type 0} where
  pub bind :
      {B : Type 0} {P : A → Type 0} {Q : B → Type 0} {m : Outcome A} {f : A → Outcome B}
      → Ends P m
      → ((a : A) → P a → Ends Q (f a))
      → Ends Q (m >>= f)
  bind (returns {a} p) next = next a p
  bind refuses next = refuses

  pub safe : {P : A → Type 0} {m : Outcome A} → Ends P m → m ≢ fault
  safe (returns p) e = cc
  safe refuses e = cc

  pub result : {P : A → Type 0} {m : Outcome A} {a : A} → Ends P m → m ≡ done a → P a
  result {P} (returns p) e = subst P (cc) p
  result refuses e = cc

pub require-Ends : (b : Bool) → Ends (λ _. b ≡ true) (require b)
unfolding require
require-Ends true = returns refl
require-Ends false = refuses

abbrev pub Bytes : Image → Type 0
Bytes = All (λ b. b < 256)

-- 256 to the power of `n`.
abbrev pub width : ℕ → ℕ
width zero = 1
width (suc n) = 256 * width n

get_elem?-Bytes :
    (image : Image) (i : ℕ)
    → Bytes image
    → i < length image
    → (b : ℕ) × (get_elem? image i ≡ some b) × (b < 256)
get_elem?-Bytes [] i h small = absurd (omega arith)
get_elem?-Bytes (b ∷ bs) zero h small = (b, refl, h.0)
get_elem?-Bytes (b ∷ bs) (suc i) h small = get_elem?-Bytes bs i h.1 (omega arith)

-- What the fields of a program header can hold.
pub record Sized (ph : Phdr) : Type 0 where
  pub offset_lt : ph.p_offset < 2 ^ 64
  pub vaddr_lt : ph.p_vaddr < 2 ^ 64
  pub filesz_lt : ph.p_filesz < 2 ^ 64
  pub memsz_lt : ph.p_memsz < 2 ^ 64

module _ (image : Image) (bytes : Bytes image) where
  pub field_at-Ends :
      (off n : ℕ) → off + n ≤ length image → Ends (λ v. v < width n) (field_at image off n)
  unfolding field_at
  field_at-Ends off zero h = returns (omega arith)
  field_at-Ends off (suc n) h =
      let (b, e, small) = get_elem?-Bytes image off bytes (omega arith) in
      rw (e, field_at)
        (bind (field_at-Ends (off + 1) n (omega arith)) λ v lt. returns (omega arith))

  pub copy_bytes-Ends :
      (off n : ℕ)
      → off + n ≤ length image
      → Ends (λ (bs : List ℕ). length bs ≡ n) (copy_bytes image off n)
  unfolding copy_bytes
  copy_bytes-Ends off zero h = returns refl
  copy_bytes-Ends off (suc n) h =
      let (b, e, small) = get_elem?-Bytes image off bytes (omega arith) in
      rw (e, copy_bytes)
        (bind (copy_bytes-Ends (off + 1) n (omega arith)) λ bs len. returns (omega arith))

  pub read_phdr-Ends : (at : ℕ) → at + 56 ≤ length image → Ends Sized (read_phdr image at)
  unfolding read_phdr
  read_phdr-Ends at h = bind (field_at-Ends at 4 (omega arith)) λ _ _.
      bind (field_at-Ends (at + 4) 4 (omega arith)) λ _ _.
        bind (field_at-Ends (at + 8) 8 (omega arith)) λ offset o.
          bind (field_at-Ends (at + 16) 8 (omega arith)) λ vaddr v.
            bind (field_at-Ends (at + 32) 8 (omega arith)) λ filesz f.
              bind (field_at-Ends (at + 40) 8 (omega arith)) λ memsz m.
                bind (field_at-Ends (at + 48) 8 (omega arith)) λ _ _.
                  returns (record { offset_lt = o; vaddr_lt = v; filesz_lt = f; memsz_lt = m })

  pub read_ehdr-Ends : 64 ≤ length image → Ends (λ (eh : Ehdr). Unit {0}) (read_ehdr image)
  unfolding read_ehdr
  read_ehdr-Ends h =
      let at : (off n : ℕ) → off + n ≤ 64 → Ends (λ v. v < width n) (field_at image off n) =
        λ off n small. field_at-Ends off n (omega arith) in
      bind (at 0 1 (omega arith)) λ _ _. bind (at 1 1 (omega arith)) λ _ _.
        bind (at 2 1 (omega arith)) λ _ _. bind (at 3 1 (omega arith)) λ _ _.
          bind (at 4 1 (omega arith)) λ _ _. bind (at 5 1 (omega arith)) λ _ _.
            bind (at 6 1 (omega arith)) λ _ _. bind (at 16 2 (omega arith)) λ _ _.
              bind (at 18 2 (omega arith)) λ _ _. bind (at 20 4 (omega arith)) λ _ _.
                bind (at 24 8 (omega arith)) λ _ _. bind (at 32 8 (omega arith)) λ _ _.
                  bind (at 52 2 (omega arith)) λ _ _.
                    bind (at 54 2 (omega arith))
                      λ _ _. bind (at 56 2 (omega arith)) λ _ _. returns tt

pub mono :
    {A : Type 0} {P Q : A → Type 0} {m : Outcome A} → Ends P m → ((a : A) → P a → Q a) → Ends Q m
mono (returns {a} p) f = returns (f a p)
mono refuses f = refuses

-- The outcome itself, beside the property of its value.
pub keep :
    {A : Type 0} {P : A → Type 0} {m : Outcome A} → Ends P m → Ends (λ a. P a × (m ≡ done a)) m
keep (returns p) = returns (p, refl)
keep refuses = refuses
