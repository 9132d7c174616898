-- ===== src/Tty/Editing.antt =====
-- What the editing of kernel/dev/tty.c leaves of the bytes that are typed.
use void.Base.{
  ℕ, zero, suc, ◌+◌, ◌-◌, ◌≤◌, ◌<◌, ◌≡◌, refl, sym, ap, ◌∙◌, Bool, true, false, not, ◌&&◌, List, [],
  ◌∷◌, ◌++◌, ltb, ◌==◌, arith, if◌then◌else◌, length, take, drop, Bool-cases, inl, inr,
  append_assoc,
}
use void.Tty.{
  Tty, tty_read, read_line, feed, pump, erases, ends_line, printable, has_room, line_max,
}

abbrev pub reverse_onto : List ℕ → List ℕ → List ℕ
reverse_onto [] acc = acc
reverse_onto (x ∷ xs) acc = reverse_onto xs (x ∷ acc)

abbrev pub reverse : List ℕ → List ℕ
reverse xs = reverse_onto xs []

-- The bytes that are not erased, the last typed first: `n` erasures are still to be spent.
unfoldable pub survivors : ℕ → List ℕ → List ℕ
survivors n [] = []
survivors zero (c ∷ typed) =
    if ends_line c
    then 10 ∷ survivors 0 typed
    else if erases c
    then survivors 1 typed
    else c ∷ survivors 0 typed
survivors (suc n) (c ∷ typed) =
    if ends_line c
    then survivors n typed
    else if erases c
    then survivors (suc (suc n)) typed
    else survivors n typed

abbrev pub no_eof : List ℕ → Bool
no_eof [] = true
no_eof (c ∷ cs) = not (c == 4) && no_eof cs

drop-one : (n : ℕ) (xs : List ℕ) → drop (suc n) xs ≡ drop n (drop 1 xs)
drop-one zero [] = refl
drop-one (suc n) [] = refl
drop-one n (x ∷ xs) = refl

-- Erasures take the last bytes that were left.
survivors-drop : (n : ℕ) (typed : List ℕ) → survivors n typed ≡ drop n (survivors 0 typed)
unfolding survivors
survivors-drop zero typed = refl
survivors-drop (suc n) [] = refl
survivors-drop (suc n) (c ∷ typed) = ground (
  arith,
  survivors-drop n typed,
  survivors-drop 1 typed,
  survivors-drop (suc (suc n)) typed,
  drop-one (suc n) (survivors 0 typed),
)

reverse_onto-append : (xs ys : List ℕ) → reverse_onto xs ys ≡ reverse xs ++ ys
reverse_onto-append [] ys = refl
reverse_onto-append (x ∷ xs) ys =
    reverse_onto-append xs (x ∷ ys)
    ∙ (sym (append_assoc (reverse xs) (x ∷ []) ys)
        ∙ ap (λ r. r ++ ys) (sym (reverse_onto-append xs (x ∷ []))))

take-append : (xs ys : List ℕ) → take (length xs) (xs ++ ys) ≡ xs
take-append [] ys = refl
take-append (x ∷ xs) ys = ap (λ r. x ∷ r) (take-append xs ys)

length-reverse_onto : (xs ys : List ℕ) → length (reverse_onto xs ys) ≡ length xs + length ys
length-reverse_onto [] ys = omega arith
length-reverse_onto (x ∷ xs) ys = omega (arith, length-reverse_onto xs (x ∷ ys))

-- Without its last byte, the reverse of a stack is that of the stack below its top.
take-reverse :
    (stack : List ℕ) → take (length (reverse stack) - 1) (reverse stack) ≡ reverse (drop 1 stack)
take-reverse [] = refl
take-reverse (x ∷ stack) =
    let shorter : length (reverse (x ∷ stack)) - 1 ≡ length (reverse stack) =
      omega (arith, length-reverse_onto stack (x ∷ []), length-reverse_onto stack []) in
    rw (shorter, reverse_onto-append stack (x ∷ [])) (take-append (reverse stack) (x ∷ []))

-- The stack of the bytes on the line, after one more is typed.
abbrev type_byte : ℕ → List ℕ → List ℕ
type_byte c stack = if ends_line c then 10 ∷ stack else if erases c then drop 1 stack else c ∷ stack

survivors_type :
    (c : ℕ) (typed : List ℕ) → survivors 0 (c ∷ typed) ≡ type_byte c (survivors 0 typed)
unfolding survivors
survivors_type c typed = ground (arith, survivors-drop 1 typed)

drop-length : (stack : List ℕ) → length (drop 1 stack) ≤ length stack
drop-length [] = omega arith
drop-length (x ∷ stack) = omega arith

length-type_byte : (c : ℕ) (stack : List ℕ) → length (type_byte c stack) ≤ suc (length stack)
length-type_byte c stack = ground (arith, drop-length stack)

drop_none : (stack : List ℕ) → length stack ≡ 0 → drop 1 stack ≡ stack
drop_none [] h = refl
drop_none (x ∷ stack) h = absurd (omega arith)

feed_type :
    (t : Tty) (c : ℕ) (stack : List ℕ)
    → t.line ≡ reverse stack
    → length stack < line_max - 1
    → (c == 4) ≡ false
    → (feed t c).0.line ≡ reverse (type_byte c stack)
unfolding feed
feed_type t c stack line small no_end =
    let size : length t.line ≡ length stack =
      rw line (omega (arith, length-reverse_onto stack [])) in
    let room : has_room t ≡ true = ground (arith, size) in
    elim (Bool-cases (ends_line c)) [
      | inl ends ↦ rw (ends, room, line) (sym (reverse_onto-append stack (10 ∷ [])))
      | inr other ↦ elim (Bool-cases (erases c)) [
        | inr typed ↦ elim (Bool-cases (printable c)) [
          | inl shown ↦
              rw (other, typed, no_end, shown, room, line)
                (sym (reverse_onto-append stack (c ∷ [])))
          | inr control ↦
              rw (other, typed, no_end, control, room, line)
                (sym (reverse_onto-append stack (c ∷ [])))
        ]
        | inl back ↦ elim (Bool-cases (ltb 0 (length t.line))) [
          | inl some_left ↦ rw (other, back, some_left, line) (take-reverse stack)
          | inr empty ↦
              let all : drop 1 stack ≡ stack = drop_none stack (ground (arith, size)) in
              rw (other, back, empty, all) line
        ]
      ]
    ]

pump_types :
    (spins : ℕ) (t : Tty) (xs typed : List ℕ)
    → t.line ≡ reverse (survivors 0 typed)
    → length (survivors 0 typed) + length xs < line_max
    → length xs ≤ spins
    → no_eof xs ≡ true
    → (pump spins t xs).0.line ≡ reverse (survivors 0 (reverse_onto xs typed))
unfolding pump
pump_types zero t [] typed line room enough no_end = line
pump_types zero t (x ∷ xs) typed line room enough no_end = absurd (omega arith)
pump_types (suc spins) t [] typed line room enough no_end = line
pump_types (suc spins) t (x ∷ xs) typed line room enough no_end =
    let small : length (survivors 0 (x ∷ typed)) ≤ suc (length (survivors 0 typed)) =
      rw (survivors_type x typed) (length-type_byte x (survivors 0 typed)) in
    pump_types spins (feed t x).0 xs (x ∷ typed)
      (feed_type t x (survivors 0 typed) line (omega arith) (ground arith)
        ∙ ap (λ r. reverse r) (sym (survivors_type x typed)))
      (omega (arith, small)) (omega arith) (ground arith)

pump_all : (spins : ℕ) (t : Tty) (xs : List ℕ) → length xs ≤ spins → (pump spins t xs).1 ≡ []
unfolding pump
pump_all zero t [] h = refl
pump_all zero t (x ∷ xs) h = absurd (omega arith)
pump_all (suc spins) t [] h = refl
pump_all (suc spins) t (x ∷ xs) h = pump_all spins (feed t x).0 xs (omega arith)

-- When at most 128 bytes of input are ready, no EOF among them, and nothing is staged, a read hands
-- out the first `n` of the bytes that are not erased, in the order in which they were typed, keeps
-- the others for later reads, and leaves no input behind.
pub tty_read_lem :
    (t : Tty) (n : ℕ) (input : List ℕ)
    → t.line ≡ []
    → length input ≤ 128
    → no_eof input ≡ true
    → ((tty_read t n input).0 ≡ take n (reverse (survivors 0 (reverse input))))
      × ((tty_read t n input).1.line ≡ drop n (reverse (survivors 0 (reverse input))))
      × ((tty_read t n input).2 ≡ [])
unfolding tty_read read_line survivors
tty_read_lem t n input empty ready no_end =
    let staged = pump_types 128 t input [] empty (omega arith) ready no_end in
    (ap (λ r. take n r) staged, ap (λ r. drop n r) staged, pump_all 128 t input ready)
