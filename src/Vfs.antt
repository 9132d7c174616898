-- ===== src/Vfs.antt =====
-- The embedded file system, kernel/vfs/voidfs.c: the tree and the resolution of paths.
-- A node is a place in the list of the nodes that kmalloc has given, and a pointer to one its index;
-- the root is the first. No node is ever freed.
pub mod Components
pub mod Tree
pub mod Cwd
pub mod Built
pub mod Files
pub mod User
use void.Base.{
  ℕ, zero, suc, ◌+◌, Bool, true, false, not, ◌&&◌, Option, none, some, List, [], ◌∷◌, ◌++◌, ltb,
  leb, ◌==◌, if◌then◌else◌, length, get_or, set, Ret, ok, err, fault, inval, not_dir, name_too_long,
  noent,
}
use void.Base.Strings.{CString, streq}

abbrev pub path_max : ℕ
path_max = 512

abbrev pub node_name_max : ℕ
node_name_max = 96

abbrev pub tree_depth : ℕ
tree_depth = 16

pub data Kind : Type 0 where
  reg dir : Kind

pub record Node : Type 0 where
  pub kind : Kind
  pub name : CString
  pub parent : Option ℕ
  pub child : Option ℕ
  pub sibling : Option ℕ
  pub contents : List ℕ

abbrev pub root : ℕ
root = 0

abbrev pub no_node : Node
no_node = record {
  kind = dir;
  name = [];
  parent = none;
  child = none;
  sibling = none;
  contents = [];
}

abbrev pub node_at : List Node → ℕ → Node
node_at ns i = get_or ns i no_node

abbrev pub is_dir_node : Node → Bool
is_dir_node n = elim n.kind [ dir ↦ true | reg ↦ false ]

-- The walk along the siblings; the fuel is a bound on their number.
unfoldable pub find_from : List Node → ℕ → Option ℕ → CString → Option ℕ
find_from ns zero c name = none
find_from ns (suc n) none name = none
find_from ns (suc n) (some i) name =
    let rest = find_from ns n (node_at ns i).sibling name in
    if streq (node_at ns i).name name then some i else rest

unfoldable pub find_child : List Node → ℕ → CString → Option ℕ
unfolding find_from
find_child ns d name = find_from ns (length ns) (node_at ns d).child name

-- The last sibling from `i` on.
unfoldable pub last_from : List Node → ℕ → ℕ → ℕ
last_from ns zero i = i
last_from ns (suc n) i = elim (node_at ns i).sibling [ none ↦ i | some j ↦ last_from ns n j ]

unfoldable pub add_child : List Node → ℕ → ℕ → List Node
unfolding last_from
add_child ns d c =
    let ns' = set ns c (record (node_at ns c) { parent = some d }) in
    elim (node_at ns' d).child [
      | none ↦ set ns' d (record (node_at ns' d) { child = some c })
      | some f ↦
          let s = last_from ns' (length ns') f in
          set ns' s (record (node_at ns' s) { sibling = some c })
    ]

abbrev pub new_node : Kind → CString → List ℕ → Node
new_node kind name contents = record {
  kind = kind;
  name = name;
  parent = none;
  child = none;
  sibling = none;
  contents = contents;
}

-- A node is made and put under the directory at `d`, unless kmalloc has no room for it.
unfoldable pub grow : Bool → ℕ → Node → List Node → List Node
unfolding add_child
grow memory d n ns = if memory then add_child (ns ++ n ∷ []) d (length ns) else ns

-- One component of a path: `.`, `..`, or the name of a child.
unfoldable pub step : List Node → ℕ → CString → Ret ℕ
unfolding find_child
step ns cur comp =
    if streq comp (46 ∷ [])
    then ok cur
    else if streq comp (46 ∷ 46 ∷ [])
    then elim (node_at ns cur).parent [ none ↦ ok cur | some p ↦ ok p ]
    else if not (is_dir_node (node_at ns cur))
    then err not_dir
    else if leb node_name_max (length comp)
    then err name_too_long
    else elim (find_child ns cur comp) [ none ↦ err noent | some n ↦ ok n ]

unfoldable pub skip_slashes : List ℕ → List ℕ
skip_slashes [] = []
skip_slashes (c ∷ p) = if c == 47 then skip_slashes p else c ∷ p

-- The bytes before the next slash, and those from it on.
unfoldable pub comp_of : List ℕ → CString
comp_of [] = []
comp_of (c ∷ p) = if c == 47 then [] else c ∷ comp_of p

unfoldable pub rest_of : List ℕ → List ℕ
rest_of [] = []
rest_of (c ∷ p) = if c == 47 then c ∷ p else rest_of p

-- The outer loop of vfs_resolve_abs, at most `fuel` times.
unfoldable pub walk : List Node → ℕ → ℕ → List ℕ → Ret ℕ
unfolding step skip_slashes comp_of rest_of
walk ns zero cur p = ok cur
walk ns (suc fuel) cur p = elim (skip_slashes p) [
  | [] ↦ ok cur
  | c ∷ q ↦ elim (step ns cur (comp_of (c ∷ q))) [
    | ok n ↦ walk ns fuel n (rest_of (c ∷ q))
    | err e ↦ err e
  ]
]

unfoldable pub ends_in_slash : List ℕ → Bool
ends_in_slash [] = false
ends_in_slash (c ∷ []) = c == 47
ends_in_slash (c ∷ d ∷ p) = ends_in_slash (d ∷ p)

unfoldable pub resolve_abs : List Node → CString → Ret ℕ
unfolding walk ends_in_slash
resolve_abs ns [] = err inval
resolve_abs ns (c ∷ p) =
    if c == 47
    then elim (walk ns (length p) root p) [
      | err e ↦ err e
      | ok n ↦
          if ends_in_slash (c ∷ p) && not (is_dir_node (node_at ns n)) then err not_dir else ok n
    ]
    else err inval

abbrev pub is_absolute : CString → Bool
is_absolute [] = false
is_absolute (c ∷ p) = c == 47

-- A path that is not absolute is put behind the working directory; `none` when it does not fit.
unfoldable pub absolutize : CString → CString → Option CString
absolutize cwd path =
    let slash = if ltb 1 (length cwd) then 47 ∷ [] else [] in
    if is_absolute path
    then (if leb path_max (length path) then none else some path)
    else if leb path_max (length cwd + length slash + length path)
    then none
    else some (cwd ++ (slash ++ path))

-- The names on the way up to the root, at most `left` of them.
unfoldable pub climb : List Node → ℕ → ℕ → Ret (List CString)
climb ns zero i = elim (node_at ns i).parent [ none ↦ ok [] | some p ↦ err name_too_long ]
climb ns (suc left) i = elim (node_at ns i).parent [
  | none ↦ ok []
  | some p ↦ elim (climb ns left p) [ ok cs ↦ ok ((node_at ns i).name ∷ cs) | err e ↦ err e ]
]

abbrev pub slash_before : List CString → List ℕ
slash_before [] = []
slash_before (_ ∷ _) = 47 ∷ []

-- The path is written behind `tmp`, a name at a time.
unfoldable pub assemble : CString → List CString → Ret CString
assemble tmp [] = ok tmp
assemble tmp (nm ∷ rest) =
    let slash = slash_before rest in
    let longer = assemble (tmp ++ (nm ++ slash)) rest in
    if leb path_max (length tmp + length nm + length slash) then err name_too_long else longer

abbrev pub turn {ℓ} : {A : Type ℓ} → List A → List A → List A
turn [] acc = acc
turn (x ∷ xs) acc = turn xs (x ∷ acc)

unfoldable pub cwd_of : List Node → ℕ → Ret CString
unfolding climb assemble
cwd_of ns i = elim (climb ns tree_depth i) [
  | err e ↦ err e
  | ok cs ↦ assemble (47 ∷ []) (turn cs [])
]

-- sys_vfs_chdir from the copied path on: the new working directory.
unfoldable pub chdir : List Node → CString → CString → Ret CString
unfolding absolutize resolve_abs cwd_of
chdir ns cwd path = elim (absolutize cwd path) [
  | none ↦ err fault
  | some abs ↦ elim (resolve_abs ns abs) [
    | err e ↦ err e
    | ok n ↦ if not (is_dir_node (node_at ns n)) then err not_dir else cwd_of ns n
  ]
]
