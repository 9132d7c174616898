-- ===== src/Vfs/Built.antt =====
-- vfs_build_tree of kernel/vfs/voidfs.c; each argument says whether kmalloc has room for a node.
-- A version.txt that finds no etc to stand in is lost, so it is left out.
use void.Base.{ℕ, Bool, true, false, ◌≡◌, refl, List, [], ◌∷◌, length, if◌then◌else◌}
use void.Base.Bytes.{passes}
use void.Base.Strings.{CString, streq}
use void.Vfs.{Node, reg, dir, new_node, grow, add_child, last_from, find_from, find_child}
use void.Vfs.Tree.{tree_ok, node_ok, plain}

abbrev pub hello_txt : CString
hello_txt = 104 ∷ 101 ∷ 108 ∷ 108 ∷ 111 ∷ 46 ∷ 116 ∷ 120 ∷ 116 ∷ []

abbrev pub test_txt : CString
test_txt = 116 ∷ 101 ∷ 115 ∷ 116 ∷ 46 ∷ 116 ∷ 120 ∷ 116 ∷ []

abbrev pub etc : CString
etc = 101 ∷ 116 ∷ 99 ∷ []

abbrev pub version_txt : CString
version_txt = 118 ∷ 101 ∷ 114 ∷ 115 ∷ 105 ∷ 111 ∷ 110 ∷ 46 ∷ 116 ∷ 120 ∷ 116 ∷ []

-- "Hello, VoidOS!\n"
abbrev pub hello_data : List ℕ
hello_data = 72 ∷ 101 ∷ 108 ∷ 108 ∷ 111 ∷ 44 ∷ 32 ∷ 86 ∷ 111 ∷ 105 ∷ 100 ∷ 79 ∷ 83 ∷ 33 ∷ 10 ∷ []

-- "This is a test file.\n"
abbrev pub test_data : List ℕ
test_data =
    84 ∷ 104 ∷ 105 ∷ 115 ∷ 32 ∷ 105 ∷ 115 ∷ 32 ∷ 97 ∷ 32 ∷ 116 ∷ 101 ∷ 115 ∷ 116 ∷ 32 ∷ 102 ∷ 105
    ∷ 108 ∷ 101 ∷ 46 ∷ 10 ∷ []

-- "Phase 10\n"
abbrev pub version_data : List ℕ
version_data = 80 ∷ 104 ∷ 97 ∷ 115 ∷ 101 ∷ 32 ∷ 49 ∷ 48 ∷ 10 ∷ []

unfoldable pub build_tree : Bool → Bool → Bool → Bool → List Node
unfolding grow
build_tree hello test directory version =
    let top = new_node dir [] [] ∷ [] in
    let files =
      grow test 0 (new_node reg test_txt test_data)
        (grow hello 0 (new_node reg hello_txt hello_data) top) in
    if directory
    then grow version (length files) (new_node reg version_txt version_data)
        (grow true 0 (new_node dir etc []) files)
    else files

pub tree_ok-build_tree : (h t e v : Bool) → tree_ok (build_tree h t e v) ≡ true
unfolding build_tree tree_ok node_ok plain find_child find_from streq grow add_child last_from
    passes
tree_ok-build_tree true true true true = refl
tree_ok-build_tree true true true false = refl
tree_ok-build_tree true true false v = refl
tree_ok-build_tree true false true true = refl
tree_ok-build_tree true false true false = refl
tree_ok-build_tree true false false v = refl
tree_ok-build_tree false true true true = refl
tree_ok-build_tree false true true false = refl
tree_ok-build_tree false true false v = refl
tree_ok-build_tree false false true true = refl
tree_ok-build_tree false false true false = refl
tree_ok-build_tree false false false v = refl
