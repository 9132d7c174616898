-- ===== src/Tests/Vfs.antt =====
-- Witnesses and runs for the file system.
use void.Base.{
  Option, ℕ, ◌≡◌, refl, true, none, some, List, [], ◌∷◌, ◌++◌, get_elem?, take, replicate, set, ok,
  if◌then◌else◌, ◌==◌,
}
use void.Base.Strings.{CString, streq}
use void.Vfs.{
  Node, node_at, is_dir_node, resolve_abs, absolutize, chdir, cwd_of, climb, assemble, walk, step,
  skip_slashes, comp_of, rest_of, ends_in_slash, grow, add_child, last_from, find_from, find_child,
}
use void.Vfs.Built.{build_tree, tree_ok-build_tree, etc, version_txt}
use void.Vfs.Components.{resolved, resolve_refines}
use void.Vfs.Cwd.{chdir_lem}
use void.Vfs.Files.{Fd, Files, fd_tty, closed_fd, free_fd_from, write_file, open_file, vfs_object}
use void.Vfs.Files.Reads.{read_many, read_many_lem}
use void.Vfs.Files.Slots.{opened, opened_fd}

abbrev demo_tree : List Node
demo_tree = build_tree true true true true

-- "/etc//version.txt"
abbrev version_path : CString
version_path = 47 ∷ etc ++ 47 ∷ 47 ∷ version_txt

resolve_refines_example : resolve_abs demo_tree version_path ≡ resolved demo_tree version_path
resolve_refines_example = resolve_refines demo_tree version_path

finds_version : resolve_abs demo_tree version_path ≡ ok 4
unfolding resolve_abs walk step skip_slashes comp_of rest_of ends_in_slash streq find_child
    find_from build_tree grow add_child last_from
finds_version = refl

-- "etc/."
abbrev etc_dot : CString
etc_dot = etc ++ 47 ∷ 46 ∷ []

goes_to_etc : chdir demo_tree (47 ∷ []) etc_dot ≡ ok (47 ∷ etc)
unfolding chdir absolutize cwd_of climb assemble resolve_abs walk step skip_slashes comp_of rest_of
    ends_in_slash streq find_child find_from build_tree grow add_child last_from
goes_to_etc = refl

chdir_lem_example :
    (abs : CString) × (n : ℕ) × (absolutize (47 ∷ []) etc_dot ≡ some abs)
    × (resolve_abs demo_tree abs ≡ ok n)
    × (is_dir_node (node_at demo_tree n) ≡ true)
    × (resolve_abs demo_tree (47 ∷ etc) ≡ ok n)
chdir_lem_example =
    chdir_lem demo_tree (tree_ok-build_tree true true true true) (47 ∷ []) etc_dot {cwd' = 47 ∷ etc}
      goes_to_etc

abbrev console : Fd
console = record { type = fd_tty; object = none; offset = 0 }

abbrev demo_fds : List Fd
demo_fds = console ∷ console ∷ console ∷ replicate 13 closed_fd

abbrev no_files : Files
no_files = λ b. none

abbrev after_fds : List Fd
after_fds = set demo_fds 3 (opened_fd 64)

opens_version :
    open_file demo_tree (47 ∷ []) version_path 0 (some 64) demo_fds no_files
    ≡ ok (3, after_fds, write_file no_files 64 (some (opened 4)))
unfolding open_file free_fd_from absolutize resolve_abs walk step skip_slashes comp_of rest_of
    ends_in_slash streq find_child find_from build_tree grow add_child last_from
opens_version = refl

abbrev demo_files : Files
demo_files = λ b. if b == 64 then some (opened 4) else none

read_many_lem_example :
    (fs' : Files) × (read_many demo_tree after_fds demo_files 3 (2 ∷ 5 ∷ 9 ∷ [])
      ≡ ok (take 16 (node_at demo_tree 4).contents, fs'))
unfolding vfs_object build_tree grow add_child last_from
read_many_lem_example =
    read_many_lem demo_tree after_fds demo_files 3 (2 ∷ 5 ∷ 9 ∷ []) {a = 64} {f = opened 4} refl
      refl refl

-- "etc" and its NUL at the start of the user's memory.
abbrev user_memory : ℕ → Option ℕ
user_memory j = get_elem? (etc ++ 0 ∷ []) j

-- The descriptor 3 stands for the root, of which two entries have been read.
abbrev root_files : Files
root_files = λ b. if b == 64 then some (record { node = 0; pos = 2; refcount = 1 }) else none
