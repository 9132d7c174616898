-- ===== src/Vfs/User.antt =====
-- The calls of kernel/vfs/voidfs.c that take a path from the user's memory or give a name to it.
-- `read_byte j` is the validated copy of the byte at offset `j`, `none` where it faults; `copied`
-- says whether the validated copy to the user succeeds.
use void.Base.{
  ℕ, zero, suc, ◌+◌, ◌-◌, ◌<◌, ◌≡◌, refl, sym, ap, ◌∙◌, ◌≢◌, Bool, true, false, not, Option, none,
  some, List, [], ◌∷◌, ◌++◌, ltb, ◌==◌, arith, if◌then◌else◌, length, get_elem?, Ret, ok, err,
  fault, name_too_long, not_dir, Option-cases, inl, inr, ◌⊎◌, append_nil, append_assoc,
}
use void.Base.Strings.{CString}
use void.Vfs.{Node, node_at, is_dir_node, path_max, chdir}
use void.Vfs.Files.{Fd, Files, OpenFile, file_of, write_file, open_file}

-- `left` bytes of room are left in the buffer, the last of its bytes not counted.
unfoldable pub copy_path : (ℕ → Option ℕ) → (i : ℕ) → (left : ℕ) → CString → Ret CString
copy_path read_byte i zero out = err name_too_long
copy_path read_byte i (suc left) out = elim (read_byte i) [
  | none ↦ err fault
  | some c ↦ if c == 0 then ok out else copy_path read_byte (i + 1) left (out ++ c ∷ [])
]

abbrev pub copy_user_path : (ℕ → Option ℕ) → Ret CString
copy_user_path read_byte = copy_path read_byte 0 (path_max - 1) []

unfoldable pub sys_open :
    List Node
    → CString
    → (ℕ → Option ℕ)
    → (flags : ℕ) → (address : Option ℕ) → List Fd
    → Files
    → Ret (ℕ × List Fd × Files)
unfolding copy_path open_file
sys_open ns cwd read_byte flags address fds fs = elim (copy_user_path read_byte) [
  | err e ↦ err e
  | ok path ↦ open_file ns cwd path flags address fds fs
]

unfoldable pub sys_chdir : List Node → CString → (ℕ → Option ℕ) → Ret CString
unfolding copy_path chdir
sys_chdir ns cwd read_byte = elim (copy_user_path read_byte) [
  | err e ↦ err e
  | ok path ↦ chdir ns cwd path
]

-- The bytes that are written to the user, the NUL among them.
unfoldable pub getcwd : CString → (size : ℕ) → (copied : Bool) → Ret (List ℕ)
getcwd cwd size copied =
    if ltb size (length cwd + 1)
    then err name_too_long
    else if not copied
    then err fault
    else ok (cwd ++ 0 ∷ [])

-- The sibling `k` places after a node.
unfoldable pub nth_from : List Node → Option ℕ → ℕ → Option ℕ
nth_from ns c zero = c
nth_from ns none (suc k) = none
nth_from ns (some i) (suc k) = nth_from ns (node_at ns i).sibling k

-- An empty name is the end of the directory.
unfoldable pub readdir : List Node → List Fd → Files → ℕ → (copied : Bool) → Ret (CString × Files)
unfolding file_of nth_from write_file
readdir ns fds fs fd copied = elim (file_of fds fs fd) [
  | err e ↦ err e
  | ok (a, f) ↦
      if not (is_dir_node (node_at ns f.node))
      then err not_dir
      else elim (nth_from ns (node_at ns f.node).child f.pos) [
        | none ↦ ok ([], fs)
        | some c ↦
            if not copied
            then err fault
            else ok ((node_at ns c).name, write_file fs a (some (record f { pos = f.pos + 1 })))
      ]
]

-- The memory from offset `i` on holds the string and its NUL.
abbrev pub HoldsString : (ℕ → Option ℕ) → ℕ → CString → Type 0
HoldsString read_byte i [] = read_byte i ≡ some 0
HoldsString read_byte i (c ∷ s) = (read_byte i ≡ some c) × (c ≢ 0) × HoldsString read_byte (i + 1) s

copy_path_lem :
    (read_byte : ℕ → Option ℕ) (i left : ℕ) (out s : CString)
    → length s < left
    → HoldsString read_byte i s
    → copy_path read_byte i left out ≡ ok (out ++ s)
unfolding copy_path
copy_path_lem read_byte i zero out s h m = absurd (omega arith)
copy_path_lem read_byte i (suc left) out [] h m = rw (copy_path, m, append_nil out)
copy_path_lem read_byte i (suc left) out (c ∷ s) h m =
    let present : (c == 0) ≡ false = ground (arith, m.1) in
    rw (copy_path, m.0, present)
      (copy_path_lem read_byte (i + 1) left (out ++ c ∷ []) s (omega arith) m.2
        ∙ ap ok (append_assoc out (c ∷ []) s))

-- A string of less than 511 bytes that stands in readable user memory is copied whole, and an open
-- of it is an open of that path.
pub sys_open_lem :
    (ns : List Node) (cwd : CString) (read_byte : ℕ → Option ℕ) (path : CString) (flags : ℕ)
    (address : Option ℕ) (fds : List Fd) (fs : Files)
    → length path < path_max - 1
    → HoldsString read_byte 0 path
    → sys_open ns cwd read_byte flags address fds fs ≡ open_file ns cwd path flags address fds fs
unfolding sys_open
sys_open_lem ns cwd read_byte path flags address fds fs h m =
    rw (sys_open, copy_path_lem read_byte 0 (path_max - 1) [] path h m)

-- The children of a directory, at most `n` of them.
abbrev pub siblings : List Node → ℕ → Option ℕ → List ℕ
siblings ns zero c = []
siblings ns (suc n) none = []
siblings ns (suc n) (some i) = i ∷ siblings ns n (node_at ns i).sibling

nth_from-siblings :
    (ns : List Node) (n : ℕ) (c : Option ℕ) (k : ℕ)
    → k < n
    → nth_from ns c k ≡ get_elem? (siblings ns n c) k
unfolding nth_from
nth_from-siblings ns zero c k h = absurd (omega arith)
nth_from-siblings ns (suc n) none zero h = refl
nth_from-siblings ns (suc n) none (suc k) h = refl
nth_from-siblings ns (suc n) (some i) zero h = refl
nth_from-siblings ns (suc n) (some i) (suc k) h =
    nth_from-siblings ns n (node_at ns i).sibling k (omega arith)

abbrev pub next_place : OpenFile → OpenFile
next_place f = record f { pos = f.pos + 1 }

-- A readdir hands out the name of the child whose number is the position of the open directory, and
-- moves on to the next; behind the last child it hands out nothing and changes nothing.
pub readdir_lem :
    (ns : List Node) (fds : List Fd) (fs : Files) (fd n : ℕ) {a : ℕ} {f : OpenFile}
    → file_of fds fs fd ≡ ok (a, f)
    → is_dir_node (node_at ns f.node) ≡ true
    → f.pos < n
    → ((get_elem? (siblings ns n (node_at ns f.node).child) f.pos ≡ none)
        × (readdir ns fds fs fd true ≡ ok ([], fs)))
      ⊎ ((c : ℕ) × (get_elem? (siblings ns n (node_at ns f.node).child) f.pos ≡ some c)
          × (readdir ns fds fs fd true
              ≡ ok ((node_at ns c).name, write_file fs a (some (next_place f)))))
unfolding readdir
readdir_lem ns fds fs fd n {a} {f} object directory within =
    let child = (node_at ns f.node).child in
    let place = nth_from-siblings ns n child f.pos within in
    elim (Option-cases (nth_from ns child f.pos)) [
      | inl over ↦ inl (sym place ∙ over, rw (readdir, object, directory, over))
      | inr (c, here) ↦ inr (c, sym place ∙ here, rw (readdir, object, directory, here))
    ]
