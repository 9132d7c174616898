-- ===== src/Elf/Embedded.antt =====
-- The table of embedded images, elf_find_embedded of kernel/elf/elf.c. Where the linker puts the images
-- is a parameter.
use void.Base.{ℕ, ◌+◌, ◌-◌, ◌≡◌, Bool, true, false, ◌||◌, List, [], ◌∷◌, ◌++◌, ◌==◌, if◌then◌else◌}
use void.Base.Strings.{CString}
use void.Elf.Format.{Outcome, done, refused, noexec}

pub record Blob : Type 0 where
  pub name : CString
  pub base : ℕ
  pub size : ℕ

abbrev pub ends : CString → Bool
ends [] = true
ends (x ∷ xs) = false

-- The comparison loop: it stops at the first difference, and where either string has ended behind
-- the bytes that it has compared.
unfoldable pub same_blob : CString → CString → Bool
same_blob [] [] = true
same_blob [] (y ∷ ys) = false
same_blob (x ∷ xs) [] = false
same_blob (x ∷ xs) (y ∷ ys) =
    let rest = same_blob xs ys in
    if x == y then (if ends xs || ends ys then true else rest) else false

unfoldable pub find_embedded : List Blob → CString → Outcome Blob
find_embedded [] name = refused noexec
find_embedded (b ∷ bs) name = if same_blob name b.name then done b else find_embedded bs name

abbrev pub blob_names : List CString
blob_names =
    -- init
    (105 ∷ 110 ∷ 105 ∷ 116 ∷ [])
    -- elf_test
    ∷ (101 ∷ 108 ∷ 102 ∷ 95 ∷ 116 ∷ 101 ∷ 115 ∷ 116 ∷ [])
    -- ipc_test
    ∷ (105 ∷ 112 ∷ 99 ∷ 95 ∷ 116 ∷ 101 ∷ 115 ∷ 116 ∷ [])
    -- fork_test
    ∷ (102 ∷ 111 ∷ 114 ∷ 107 ∷ 95 ∷ 116 ∷ 101 ∷ 115 ∷ 116 ∷ [])
    -- calc
    ∷ (99 ∷ 97 ∷ 108 ∷ 99 ∷ [])
    -- srv_test
    ∷ (115 ∷ 114 ∷ 118 ∷ 95 ∷ 116 ∷ 101 ∷ 115 ∷ 116 ∷ [])
    -- lifecycle
    ∷ (108 ∷ 105 ∷ 102 ∷ 101 ∷ 99 ∷ 121 ∷ 99 ∷ 108 ∷ 101 ∷ [])
    -- vfs_test
    ∷ (118 ∷ 102 ∷ 115 ∷ 95 ∷ 116 ∷ 101 ∷ 115 ∷ 116 ∷ [])
    -- mm_test
    ∷ (109 ∷ 109 ∷ 95 ∷ 116 ∷ 101 ∷ 115 ∷ 116 ∷ [])
    -- malloc_test
    ∷ (109 ∷ 97 ∷ 108 ∷ 108 ∷ 111 ∷ 99 ∷ 95 ∷ 116 ∷ 101 ∷ 115 ∷ 116 ∷ [])
    -- ld-void.so
    ∷ (108 ∷ 100 ∷ 45 ∷ 118 ∷ 111 ∷ 105 ∷ 100 ∷ 46 ∷ 115 ∷ 111 ∷ [])
    -- dynamic_test
    ∷ (100 ∷ 121 ∷ 110 ∷ 97 ∷ 109 ∷ 105 ∷ 99 ∷ 95 ∷ 116 ∷ 101 ∷ 115 ∷ 116 ∷ [])
    ∷ []

-- The image number `i` lies at `start i` and ends before `stop i`.
unfoldable pub blobs_from : (ℕ → ℕ) → (ℕ → ℕ) → ℕ → List CString → List Blob
blobs_from start stop i [] = []
blobs_from start stop i (n ∷ ns) =
    record { name = n; base = start i; size = stop i - start i } ∷ blobs_from start stop (i + 1) ns

abbrev pub blobs : (ℕ → ℕ) → (ℕ → ℕ) → List Blob
blobs start stop = blobs_from start stop 0 blob_names

-- A name that begins with the other, which is not empty.
abbrev pub Begins : CString → CString → Type 0
Begins s t = (x : ℕ) × (p : CString) × (r : CString) × (s ≡ x ∷ p) × (t ≡ x ∷ p ++ r)
