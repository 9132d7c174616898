-- ===== src/Proc/Pages.antt =====
-- Which pages a process owns after um_release_from of kernel/mm/user_mem.c and sys_munmap of
-- kernel/syscall/syscall.c.
use void.Base.{
  ℕ, zero, suc, ◌+◌, ◌%◌, ◌≤◌, ◌<◌, ◌≡◌, refl, ap, ◌∙◌, Bool, true, false, not, ◌&&◌, some, List,
  [], ◌∷◌, ltb, leb, ◌==◌, if◌then◌else◌, arith, Bool-cases, inl, inr, length, take, drop,
  get_elem?, ok, err, inval, perm, Errno, Ret,
}
use void.Proc.{
  Page, World, swap_tail, umap_remove, is_released, release_page, release_loop, release_from,
  mmap_top,
}
use void.Proc.Mmap.{sys_munmap}

-- How many pages pass a test.
abbrev pub count : (Page → Bool) → List Page → ℕ
count f [] = 0
count f (x ∷ xs) = (if f x then 1 else 0) + count f xs

abbrev kept : (Page → Bool) → ℕ → Page → Bool
kept f start x = f x && not (is_released start x)

count-swap_tail : (f : Page → Bool) (xs : List Page) → count f (swap_tail xs) ≡ count f xs
unfolding swap_tail
count-swap_tail f [] = refl
count-swap_tail f (y ∷ []) = refl
count-swap_tail f (y ∷ z ∷ ys) = swapped (swap_tail (z ∷ ys)) (count-swap_tail f (z ∷ ys))
  where
    swapped :
        (l : List Page)
        → count f l ≡ count f (z ∷ ys)
        → count f (elim l as (λ l. List Page) [ [] ↦ y ∷ [] | t ∷ ts ↦ t ∷ y ∷ ts ])
          ≡ count f (y ∷ z ∷ ys)
    swapped [] h = omega (arith, h)
    swapped (t ∷ ts) h = omega (arith, h)

length-swap_tail : (xs : List Page) → length (swap_tail xs) ≡ length xs
unfolding swap_tail
length-swap_tail [] = refl
length-swap_tail (y ∷ []) = refl
length-swap_tail (y ∷ z ∷ ys) = swapped (swap_tail (z ∷ ys)) (length-swap_tail (z ∷ ys))
  where
    swapped :
        (l : List Page)
        → length l ≡ suc (length ys)
        → length (elim l as (λ l. List Page) [ [] ↦ y ∷ [] | t ∷ ts ↦ t ∷ y ∷ ts ])
          ≡ suc (suc (length ys))
    swapped [] h = absurd (omega (arith, h))
    swapped (t ∷ ts) h = omega (arith, h)

-- The pages before number `i` stay, and those behind it are the same in another order.
record Removed (l : List Page) (i : ℕ) : Type 0 where
  shorter : length (umap_remove i l) + 1 ≡ length l
  before : take i (umap_remove i l) ≡ take i l
  behind : (f : Page → Bool) → count f (drop i (umap_remove i l)) ≡ count f (drop (i + 1) l)

umap_remove-Removed : (l : List Page) (i : ℕ) → i < length l → Removed l i
unfolding umap_remove
umap_remove-Removed [] i h = absurd (omega arith)
umap_remove-Removed (x ∷ xs) zero h = record {
  shorter = omega (arith, length-swap_tail xs);
  before = refl;
  behind = λ f. count-swap_tail f xs;
}
umap_remove-Removed (x ∷ xs) (suc i) h =
    let r = umap_remove-Removed xs i (omega arith) in
    record {
      shorter = omega (arith, r.shorter);
      before = ap (λ t. x ∷ t) r.before;
      behind = λ f. let at : suc i + 1 ≡ suc (i + 1) = omega arith in rw at (r.behind f);
    }

get-drop :
    (l : List Page) (i : ℕ)
    → i < length l
    → (x : Page) × (get_elem? l i ≡ some x)
      × ((f : Page → Bool) → count f (drop i l) ≡ (if f x then 1 else 0) + count f (drop (i + 1) l))
      × ((f : Page → Bool) → count f (take (i + 1) l) ≡ count f (take i l) + (if f x then 1 else 0))
get-drop [] i h = absurd (omega arith)
get-drop (x ∷ xs) zero h = (x, refl, (λ f. refl), λ f. omega arith)
get-drop (x ∷ xs) (suc i) h =
    let (y, e, behind, before) = get-drop xs i (omega arith) in
    let at : suc i + 1 ≡ suc (i + 1) = omega arith in
    (y, e, (λ f. rw at (behind f)), λ f. rw at (omega (arith, before f)))

take_all : (l : List Page) (i : ℕ) → length l ≤ i → (take i l ≡ l) × (drop i l ≡ [])
take_all [] zero h = (refl, refl)
take_all [] (suc i) h = (refl, refl)
take_all (x ∷ xs) zero h = absurd (omega arith)
take_all (x ∷ xs) (suc i) h = let r = take_all xs i (omega arith) in (ap (λ t. x ∷ t) r.0, r.1)

release_loop_count :
    (start n i : ℕ) (w : World) (f : Page → Bool)
    → length w.space.umap ≡ n + i
    → count f (release_loop start n i w).space.umap
      ≡ count f (take i w.space.umap) + count (kept f start) (drop i w.space.umap)
unfolding release_loop
release_loop_count start zero i w f h =
    let ends = take_all w.space.umap i (omega arith) in rw (ends.0, ends.1) (omega arith)
release_loop_count start (suc n) i w f h =
    let l = w.space.umap in
    let (x, e, behind, before) = get-drop l i (omega arith) in
    elim (Bool-cases (is_released start x)) [
      | inl gone ↦
          let r = umap_remove-Removed l i (omega arith) in
          let w' = release_page x w in
          let w1 : World = record w' {
            space = record (w'.space) { umap = umap_remove i w'.space.umap };
          } in
          let rest = release_loop_count start n i w1 f (omega (arith, r.shorter)) in
          let leaves : kept f start x ≡ false = ground (arith, gone) in
          let counted : count (kept f start) (drop i l) ≡ count (kept f start) (drop (i + 1) l) =
            behind (kept f start) ∙ rw leaves (omega arith) in
          rw (e, gone, release_loop)
            (omega (arith, rest, counted, ap (count f) r.before, r.behind (kept f start)))
      | inr stays ↦
          let rest = release_loop_count start n (i + 1) w f (omega arith) in
          let remains : kept f start x ≡ f x = ground (arith, stays) in
          let counted : count (kept f start) (drop i l)
              ≡ (if f x then 1 else 0) + count (kept f start) (drop (i + 1) l) =
            behind (kept f start) ∙ rw remains refl in
          rw (e, stays, release_loop) (omega (arith, rest, counted, before f))
    ]

past_test :
    (b : Bool) (e : Errno) (w : World) (r : Ret ℕ × World)
    → (if b then (err e, w) else r).0 ≡ ok 0
    → ((if b then (err e, w) else r) ≡ r) × (r.0 ≡ ok 0)
past_test true e w r h = cc
past_test false e w r h = (refl, h)

munmap_accepted :
    (addr len : ℕ) (w : World)
    → (sys_munmap addr len w).0 ≡ ok 0
    → sys_munmap addr len w ≡ (ok 0, release_from addr w)
unfolding sys_munmap
munmap_accepted addr len w h =
    let a = past_test (w.space.cr3 == 0) perm w _ h in
    let b = past_test (len == 0) inval w _ a.1 in
    let c = past_test (not (addr % 4096 == 0)) inval w _ b.1 in
    let d = past_test _ inval w _ c.1 in a.0 ∙ b.0 ∙ c.0 ∙ d.0

-- sys_munmap of a range that it accepts takes away every page from the address on, up to the stack,
-- and no other, whatever length it is given.
pub sys_munmap_count :
    (addr len : ℕ) (w : World) (f : Page → Bool)
    → (sys_munmap addr len w).0 ≡ ok 0
    → count f (sys_munmap addr len w).1.space.umap
      ≡ count (λ p. f p && not (leb addr p.virt && ltb p.virt mmap_top)) w.space.umap
sys_munmap_count addr len w f h =
    ap (λ r. count f r.1.space.umap) (munmap_accepted addr len w h)
    ∙ release_loop_count addr (length w.space.umap) 0 w f (omega arith)
    ∙ omega arith
