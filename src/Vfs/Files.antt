-- ===== src/Vfs/Files.antt =====
-- The open files of kernel/vfs/voidfs.c and the descriptors of a process.
-- An open file is kept under its address; what kmalloc gives, and whether the copy to the user
-- succeeds, are arguments. A descriptor is a C int: a negative one is out of range as well.
pub mod Reads
pub mod Slots
use void.Base.{
  ℕ, zero, suc, ◌+◌, ◌-◌, ◌*◌, ◌%◌, ◌^◌, Bool, true, false, not, ◌&&◌, ◌||◌, Option, none, some,
  List, [], ◌∷◌, ◌++◌, ltb, leb, ◌==◌, if◌then◌else◌, length, get_elem?, get_or, set, take, drop,
  min, Ret, ok, err, ◌>>=◌, inval, badf, acces, nomem, fault, is_dir, not_dir,
}
use void.Base.Strings.{CString}
use void.Vfs.{Node, Kind, node_at, is_dir_node, resolve_abs, absolutize}

abbrev pub max_fds : ℕ
max_fds = 16

abbrev pub root_fds : ℕ
root_fds = 3

pub data FdType : Type 0 where
  fd_none fd_serial fd_tty fd_vfs : FdType

pub record Fd : Type 0 where
  pub type : FdType
  pub object : Option ℕ
  pub offset : ℕ

abbrev pub closed_fd : Fd
closed_fd = record { type = fd_none; object = none; offset = 0 }

pub record OpenFile : Type 0 where
  pub node : ℕ
  pub pos : ℕ
  pub refcount : ℕ

abbrev pub Files : Type 0
Files = ℕ → Option OpenFile

unfoldable pub write_file : Files → ℕ → Option OpenFile → Files
write_file fs a f b = if b == a then f else fs b

abbrev pub is_none : Fd → Bool
is_none e = elim e.type [ fd_none ↦ true | _ ↦ false ]

abbrev pub is_vfs : Fd → Bool
is_vfs e = elim e.type [ fd_vfs ↦ true | _ ↦ false ]

-- The first descriptor from `n` on that is free.
unfoldable pub free_fd_from : ℕ → List Fd → Option ℕ
free_fd_from n [] = none
free_fd_from n (e ∷ fds) =
    let rest = free_fd_from (n + 1) fds in if leb root_fds n && is_none e then some n else rest

-- sys_vfs_open from the copied path on; the state is the table of the process and the open files.
unfoldable pub open_file :
    List Node
    → CString
    → (path : CString) → (flags : ℕ) → (address : Option ℕ) → List Fd
    → Files
    → Ret (ℕ × List Fd × Files)
unfolding resolve_abs absolutize free_fd_from write_file
open_file ns cwd path flags address fds fs = elim (absolutize cwd path) [
  | none ↦ err fault
  | some abs ↦ elim (resolve_abs ns abs) [
    | err e ↦ err e
    | ok node ↦ if not (flags % 4 == 0) then err acces else elim address [
      | none ↦ err nomem
      | some a ↦ elim (free_fd_from 0 fds) [
        | none ↦ err nomem
        | some fd ↦ ok (
          fd,
          set fds fd (record { type = fd_vfs; object = some a; offset = 0 }),
          write_file fs a (some (record { node = node; pos = 0; refcount = 1 })),
        )
      ]
    ]
  ]
]

-- The checks that every call on a descriptor starts with: the address of the open file.
unfoldable pub vfs_object : List Fd → ℕ → Ret ℕ
vfs_object fds fd = if leb max_fds fd then err badf else elim (get_elem? fds fd) [
  | none ↦ err badf
  | some e ↦ if not (is_vfs e) then err badf else elim e.object [ none ↦ err badf | some a ↦ ok a ]
]

-- Through a pointer to no open file the source reads what lies there.
unfoldable pub file_of : List Fd → Files → ℕ → Ret (ℕ × OpenFile)
unfolding vfs_object
file_of fds fs fd = elim (vfs_object fds fd) [
  | err e ↦ err e
  | ok a ↦ elim (fs a) [ none ↦ err badf | some f ↦ ok (a, f) ]
]

-- The bytes that are copied out, and the open files after.
unfoldable pub read_open : List Node → Files → ℕ → OpenFile → ℕ → Bool → Ret (List ℕ × Files)
unfolding write_file
read_open ns fs a f count copied =
    let node = node_at ns f.node in
    if is_dir_node node
    then err is_dir
    else if leb (length node.contents) f.pos
    then ok ([], fs)
    else if not copied
    then err fault
    else ok (
      take (min count (length node.contents - f.pos)) (drop f.pos node.contents),
      write_file fs a (some (record f { pos = f.pos + min count (length node.contents - f.pos) })),
    )

unfoldable pub read_file : List Node → List Fd → Files → ℕ → ℕ → Bool → Ret (List ℕ × Files)
unfolding file_of read_open
read_file ns fds fs fd count copied = elim (file_of fds fs fd) [
  | err e ↦ err e
  | ok (a, f) ↦ read_open ns fs a f count copied
]

unfoldable pub write_denied : List Fd → ℕ → Ret ℕ
unfolding vfs_object
write_denied fds fd = elim (vfs_object fds fd) [ err e ↦ err e | ok a ↦ err acces ]

-- kfree when the last reference goes.
unfoldable pub release_file : Files → ℕ → Files
unfolding write_file
release_file fs a = elim (fs a) [
  | none ↦ fs
  | some f ↦
      if leb f.refcount 1
      then write_file fs a none
      else write_file fs a (some (record f { refcount = f.refcount - 1 }))
]

unfoldable pub close_file : List Fd → Files → ℕ → Ret (List Fd × Files)
unfolding vfs_object release_file
close_file fds fs fd = elim (vfs_object fds fd) [
  | err e ↦ err e
  | ok a ↦ ok (set fds fd closed_fd, release_file fs a)
]

-- The 64-bit words whose sign bit is set are the negative ones.
unfoldable pub lseek : List Node → List Fd → Files → ℕ → ℕ → ℕ → Ret (ℕ × Files)
unfolding file_of write_file
lseek ns fds fs fd offset whence = elim (file_of fds fs fd) [
  | err e ↦ err e
  | ok (a, f) ↦
      let place : Ret ℕ =
        if whence == 0
        then ok offset
        else if whence == 1
        then ok ((f.pos + offset) % 2 ^ 64)
        else if whence == 2
        then ok ((length (node_at ns f.node).contents + offset) % 2 ^ 64)
        else err inval in
      if is_dir_node (node_at ns f.node) then err is_dir else elim place [
        | err e ↦ err e
        | ok npos ↦
            if leb (2 ^ 63) npos
            then err inval
            else ok (npos, write_file fs a (some (record f { pos = npos })))
      ]
]

unfoldable pub ref_inc : Files → ℕ → Files
unfolding write_file
ref_inc fs a = elim (fs a) [
  | none ↦ fs
  | some f ↦ write_file fs a (some (record f { refcount = f.refcount + 1 }))
]

-- The teardown of a process: every descriptor of an open file is closed.
unfoldable pub close_fds : List Fd → Files → List Fd × Files
unfolding release_file
close_fds [] fs = ([], fs)
close_fds (e ∷ fds) fs =
    let released = elim e.object as (λ o. Files) [ none ↦ fs | some a ↦ release_file fs a ] in
    let rest = close_fds fds (if is_vfs e then released else fs) in
    ((if is_vfs e then closed_fd else e) ∷ rest.0, rest.1)
