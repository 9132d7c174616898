-- ===== src/Vfs/Files/Reads.antt =====
-- Successive reads of an open file of kernel/vfs/voidfs.c.
use void.Base.{
  ℕ, zero, suc, ◌+◌, ◌-◌, ◌≤◌, ◌≡◌, refl, sym, ap, ◌∙◌, ◌≢◌, true, false, some, List, [], ◌∷◌, ◌++◌,
  leb, arith, length, take, drop, min, Ret, ok, err, Bool-cases, inl, inr, length-drop,
}
use void.Vfs.{Node, node_at, is_dir_node}
use void.Vfs.Files.{Fd, OpenFile, Files, write_file, vfs_object, file_of, read_open, read_file}

module _ {ℓ} {A : Type ℓ} where
  take-nil : (n : ℕ) → take {A = A} n [] ≡ []
  take-nil zero = refl
  take-nil (suc n) = refl

  drop-nil : (n : ℕ) → drop {A = A} n [] ≡ []
  drop-nil zero = refl
  drop-nil (suc n) = refl

  take-min : (n : ℕ) (xs : List A) → take (min n (length xs)) xs ≡ take n xs
  take-min zero xs = let none_left : min 0 (length xs) ≡ 0 = omega arith in rw none_left
  take-min (suc n) [] = take-nil (min (suc n) 0)
  take-min (suc n) (x ∷ xs) =
      let one_less : min (suc n) (suc (length xs)) ≡ suc (min n (length xs)) = omega arith in
      rw one_less (ap (λ r. x ∷ r) (take-min n xs))

  drop-min : (n : ℕ) (xs : List A) → drop (min n (length xs)) xs ≡ drop n xs
  drop-min zero xs = let none_left : min 0 (length xs) ≡ 0 = omega arith in rw none_left
  drop-min (suc n) [] = drop-nil (min (suc n) 0)
  drop-min (suc n) (x ∷ xs) =
      let one_less : min (suc n) (suc (length xs)) ≡ suc (min n (length xs)) = omega arith in
      rw one_less (drop-min n xs)

  drop-drop : (m n : ℕ) (xs : List A) → drop (m + n) xs ≡ drop n (drop m xs)
  drop-drop zero n xs = let same : 0 + n ≡ n = omega arith in rw same
  drop-drop (suc m) n [] = drop-nil (suc m + n) ∙ sym (drop-nil n)
  drop-drop (suc m) n (x ∷ xs) =
      let one_more : suc m + n ≡ suc (m + n) = omega arith in rw one_more (drop-drop m n xs)

  drop_past : (n : ℕ) (xs : List A) → length xs ≤ n → drop n xs ≡ []
  drop_past zero [] h = refl
  drop_past zero (x ∷ xs) h = absurd (omega arith)
  drop_past (suc n) [] h = refl
  drop_past (suc n) (x ∷ xs) h = drop_past n xs (omega arith)

  take-sum : (m n : ℕ) (xs : List A) → take (m + n) xs ≡ take m xs ++ take n (drop m xs)
  take-sum zero n xs = let same : 0 + n ≡ n = omega arith in rw same
  take-sum (suc m) n [] = take-nil (suc m + n) ∙ sym (take-nil n)
  take-sum (suc m) n (x ∷ xs) =
      let one_more : suc m + n ≡ suc (m + n) = omega arith in
      rw one_more (ap (λ r. x ∷ r) (take-sum m n xs))

-- What is left to read of an open file.
abbrev pub remaining : List Node → OpenFile → List ℕ
remaining ns f = drop f.pos (node_at ns f.node).contents

-- One read hands out the first bytes of what remains, and leaves the rest.
pub record Outcome (ns : List Node) (fs : Files) (a : ℕ) (f : OpenFile) (count : ℕ) : Type 0 where
  pub files : Files
  pub after : OpenFile
  pub result : read_open ns fs a f count true ≡ ok (take count (remaining ns f), files)
  pub stored : files a ≡ some after
  pub same_node : after.node ≡ f.node
  pub same_count : after.refcount ≡ f.refcount
  pub left : remaining ns after ≡ drop count (remaining ns f)
  pub others : (b : ℕ) → b ≢ a → files b ≡ fs b

pub read_open-Outcome :
    (ns : List Node) (fs : Files) (a : ℕ) (f : OpenFile) (count : ℕ)
    → fs a ≡ some f
    → is_dir_node (node_at ns f.node) ≡ false
    → Outcome ns fs a f count
unfolding read_open write_file
read_open-Outcome ns fs a f count kept regular =
    let bytes = (node_at ns f.node).contents in
    elim (Bool-cases (leb (length bytes) f.pos)) [
      | inl past ↦
          let nothing : remaining ns f ≡ [] = drop_past f.pos bytes (ground arith) in
          record {
            files = fs;
            after = f;
            result = rw (regular, past, nothing, take-nil {A = ℕ} count);
            stored = kept;
            same_node = refl;
            same_count = refl;
            left = rw (nothing, drop-nil {A = ℕ} count);
            others = λ b ne. refl;
          }
      | inr within ↦
          let n = min count (length bytes - f.pos) in
          let size : length bytes - f.pos ≡ length (remaining ns f) =
            sym (length-drop f.pos bytes) in
          let given : take n (remaining ns f) ≡ take count (remaining ns f) =
            rw size (take-min count (remaining ns f)) in
          record {
            files = write_file fs a (some (record f { pos = f.pos + n }));
            after = record f { pos = f.pos + n };
            result = ground (arith, given);
            stored = ground arith;
            same_node = refl;
            same_count = refl;
            left = drop-drop f.pos n bytes ∙ (rw size (drop-min count (remaining ns f)));
            others = λ b ne. ground arith;
          }
    ]

-- The reads of one descriptor, one after the other: all the bytes that they hand out.
unfoldable pub read_many : List Node → List Fd → Files → ℕ → List ℕ → Ret (List ℕ × Files)
unfolding read_file
read_many ns fds fs fd [] = ok ([], fs)
read_many ns fds fs fd (c ∷ cs) = elim (read_file ns fds fs fd c true) [
  | err e ↦ err e
  | ok (xs, fs') ↦ elim (read_many ns fds fs' fd cs) [
    | err e ↦ err e
    | ok (ys, fs'') ↦ ok (xs ++ ys, fs'')
  ]
]

abbrev pub sum : List ℕ → ℕ
sum [] = 0
sum (c ∷ cs) = c + sum cs

read_many-cons :
    (ns : List Node) (fds : List Fd) (fs : Files) (fd c : ℕ) (cs : List ℕ) {xs ys : List ℕ}
    {fs' fs'' : Files}
    → read_file ns fds fs fd c true ≡ ok (xs, fs')
    → read_many ns fds fs' fd cs ≡ ok (ys, fs'')
    → read_many ns fds fs fd (c ∷ cs) ≡ ok (xs ++ ys, fs'')
unfolding read_many
read_many-cons ns fds fs fd c cs e later = rw (read_many, e, later)

read_file_open :
    (ns : List Node) (fds : List Fd) (fs : Files) (fd c : ℕ) {a : ℕ} {f : OpenFile}
    → vfs_object fds fd ≡ ok a
    → fs a ≡ some f
    → read_file ns fds fs fd c true ≡ read_open ns fs a f c true
unfolding read_file file_of
read_file_open ns fds fs fd c object kept = rw (read_file, file_of, object, kept)

-- Reads of any sizes hand out, one after the other, the bytes that one read of their sum would: the
-- file's from the position on, as far as it goes.
pub read_many_lem :
    (ns : List Node) (fds : List Fd) (fs : Files) (fd : ℕ) (cs : List ℕ) {a : ℕ} {f : OpenFile}
    → vfs_object fds fd ≡ ok a
    → fs a ≡ some f
    → is_dir_node (node_at ns f.node) ≡ false
    → (fs' : Files) × (read_many ns fds fs fd cs
        ≡ ok (take (sum cs) (drop f.pos (node_at ns f.node).contents), fs'))
unfolding read_many
read_many_lem ns fds fs fd [] object kept regular = (fs, refl)
read_many_lem ns fds fs fd (c ∷ cs) {a} {f} object kept regular =
    let one = read_open-Outcome ns fs a f c kept regular in
    let later =
      read_many_lem ns fds one.files fd cs {a = a} {f = one.after} object one.stored
        (rw one.same_node regular) in
    let read = read_file_open ns fds fs fd c object kept ∙ one.result in
    let whole : take c (remaining ns f) ++ take (sum cs) (remaining ns one.after)
        ≡ take (c + sum cs) (remaining ns f) =
      rw one.left (sym (take-sum c (sum cs) (remaining ns f))) in
    (later.0, read_many-cons ns fds fs fd c cs read later.1 ∙ ap (λ r. ok (r, later.0)) whole)
