-- ===== src/Vfs/Files/Slots.antt =====
-- The descriptor that an open of kernel/vfs/voidfs.c takes, and what a close gives back.
use void.Base.{
  ℕ, zero, suc, ◌+◌, ◌-◌, ◌≤◌, ◌<◌, ◌≡◌, sym, ◌∙◌, ◌≢◌, true, ◌&&◌, none, some, List, [], ◌∷◌, leb,
  ◌==◌, arith, length, get_elem?, set, ok, Bool-cases, Ret-cases, Option-cases, inl, inr,
  get_elem?-set_self, get_elem?-set_ne,
}
use void.Base.Strings.{CString}
use void.Vfs.{Node, resolve_abs, absolutize}
use void.Vfs.Files.{
  Fd, OpenFile, Files, fd_vfs, is_none, closed_fd, root_fds, max_fds, write_file, free_fd_from,
  open_file, vfs_object, file_of, close_file, release_file,
}

-- The search finds the first descriptor from 3 on that is free.
pub free_fd_from-found :
    (n : ℕ) (fds : List Fd) {fd : ℕ}
    → free_fd_from n fds ≡ some fd
    → (e : Fd) × (n ≤ fd) × (get_elem? fds (fd - n) ≡ some e) × (is_none e ≡ true) × (root_fds ≤ fd)
unfolding free_fd_from
free_fd_from-found n [] e = absurd cc
free_fd_from-found n (x ∷ fds) {fd} e = elim (Bool-cases (leb root_fds n && is_none x)) [
  | inl free ↦
      let here : fd ≡ n = ground arith in
      let start : fd - n ≡ 0 = omega (arith, here) in
      (x, omega (arith, here), rw start, ground arith, ground arith)
  | inr used ↦
      let later = free_fd_from-found (n + 1) fds {fd = fd} (ground arith) in
      let next : fd - n ≡ suc (fd - (n + 1)) = omega (arith, later.1) in
      (later.0, omega (arith, later.1), rw next later.2, later.3, later.4)
]

bound_of : (fds : List Fd) (i : ℕ) {e : Fd} → get_elem? fds i ≡ some e → i < length fds
bound_of [] i e = absurd cc
bound_of (x ∷ fds) zero e = omega arith
bound_of (x ∷ fds) (suc i) e = omega (arith, bound_of fds i e)

abbrev pub opened_fd : ℕ → Fd
opened_fd a = record { type = fd_vfs; object = some a; offset = 0 }

abbrev pub opened : ℕ → OpenFile
opened node = record { node = node; pos = 0; refcount = 1 }

-- An open that succeeds.
pub record Opening (ns : List Node) (cwd path : CString) (a : ℕ) (fds : List Fd) (fs : Files)
    (fd : ℕ) (fds' : List Fd) (fs' : Files) : Type 0 where
  pub abs : CString
  pub node : ℕ
  pub whole : absolutize cwd path ≡ some abs
  pub resolves : resolve_abs ns abs ≡ ok node
  pub slot : Fd
  pub was : get_elem? fds fd ≡ some slot
  pub was_free : is_none slot ≡ true
  pub above : root_fds ≤ fd
  pub table : fds' ≡ set fds fd (opened_fd a)
  pub files : fs' ≡ write_file fs a (some (opened node))

pub open_file-Opening :
    (ns : List Node) (cwd path : CString) (flags a : ℕ) (fds : List Fd) (fs : Files) {fd : ℕ}
    {fds' : List Fd} {fs' : Files}
    → open_file ns cwd path flags (some a) fds fs ≡ ok (fd, fds', fs')
    → Opening ns cwd path a fds fs fd fds' fs'
unfolding open_file
open_file-Opening ns cwd path flags a fds fs {fd} {fds'} {fs'} e =
    elim (Option-cases (absolutize cwd path)) [
      | inl long ↦ absurd (ground arith)
      | inr (abs, whole) ↦ elim (Ret-cases (resolve_abs ns abs)) [
        | inr (x, failed) ↦ absurd (ground arith)
        | inl (node, found) ↦ elim (Option-cases (free_fd_from 0 fds)) [
          | inl full ↦ absurd (ground arith)
          | inr (n, free) ↦
              let same : n ≡ fd = ground arith in
              let slot = free_fd_from-found 0 fds free in
              record {
                abs = abs;
                node = node;
                whole = whole;
                resolves = found;
                slot = slot.0;
                was = ground (arith, slot.2, same);
                was_free = slot.3;
                above = ground (arith, slot.4);
                table = ground arith;
                files = ground arith;
              }
        ]
      ]
    ]

release-opened :
    (fs : Files) (a node b : ℕ)
    → fs a ≡ none
    → release_file (write_file fs a (some (opened node))) a b ≡ fs b
unfolding release_file write_file
release-opened fs a node b gone = elim (Bool-cases (b == a)) [
  | inl same ↦ let at : b ≡ a = ground arith in ground (arith, gone)
  | inr other ↦ ground arith
]

-- An open that succeeds takes a descriptor of 3 or more that was free, which then stands for a new
-- open file at the start of the node of its path; a close of the descriptor frees that file, and
-- leaves every other descriptor and every other open file as they were before the open.
pub close_file-open_file :
    (ns : List Node) (cwd path : CString) (flags a : ℕ) (fds : List Fd) (fs : Files) {fd : ℕ}
    {fds' : List Fd} {fs' : Files}
    → length fds ≤ max_fds
    → fs a ≡ none
    → open_file ns cwd path flags (some a) fds fs ≡ ok (fd, fds', fs')
    → (o : Opening ns cwd path a fds fs fd fds' fs') × (file_of fds' fs' fd ≡ ok (a, opened o.node))
      × ((fds'' : List Fd) × (fs'' : Files) × (close_file fds' fs' fd ≡ ok (fds'', fs''))
          × ((i : ℕ) → i ≢ fd → get_elem? fds'' i ≡ get_elem? fds i)
          × (get_elem? fds'' fd ≡ some closed_fd)
          × ((b : ℕ) → fs'' b ≡ fs b))
unfolding vfs_object file_of close_file write_file
close_file-open_file ns cwd path flags a fds fs {fd} {fds'} {fs'} len fresh e =
    let o = open_file-Opening ns cwd path flags a fds fs e in
    let low = bound_of fds fd o.was in
    let slot : get_elem? fds' fd ≡ some (opened_fd a) =
      rw o.table (get_elem?-set_self fds fd (opened_fd a) low) in
    let object : vfs_object fds' fd ≡ ok a = ground (arith, slot, low) in
    let file : fs' a ≡ some (opened o.node) = rw o.files (ground arith) in
    (
      o,
      ground (arith, object, file),
      (
        set fds' fd closed_fd,
        release_file fs' a,
        ground (arith, object),
        (λ i ne.
            get_elem?-set_ne fds' closed_fd (λ e. ne (sym e))
            ∙ rw o.table (get_elem?-set_ne fds (opened_fd a) (λ e. ne (sym e)))),
        get_elem?-set_self fds' fd closed_fd (bound_of fds' fd slot),
        (λ b. rw o.files (release-opened fs a o.node b fresh)),
      ),
    )
