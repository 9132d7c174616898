-- ===== src/Vfs/Tree.antt =====
-- When the nodes of kernel/vfs/voidfs.c make up a tree, as a test that can be run.
use void.Base.{
  ℕ, zero, suc, ◌<◌, ◌≡◌, Bool, true, false, not, ◌&&◌, Option, none, some, List, [], ◌∷◌, ltb,
  ◌==◌, arith, length, ok, Bool-cases, Ret-cases, Option-cases, inl, inr,
}
use void.Base.Bytes.{passes, passes_at}
use void.Base.Strings.{CString, streq}
use void.Vfs.{Node, root, node_at, is_dir_node, node_name_max, find_from, find_child, step}
use void.Vfs.Components.{follow}

abbrev pub no_slash : CString → Bool
no_slash [] = true
no_slash (c ∷ cs) = not (c == 47) && no_slash cs

-- A name that can stand in a path: not empty, no slash in it, not a dot or two, and not too long.
unfoldable pub plain : CString → Bool
plain nm =
    not (length nm == 0)
    && no_slash nm
    && not (streq nm (46 ∷ []))
    && not (streq nm (46 ∷ 46 ∷ []))
    && ltb (length nm) node_name_max

abbrev pub inside : List Node → Option ℕ → Bool
inside ns none = true
inside ns (some i) = ltb i (length ns)

abbrev pub is_at : Option ℕ → ℕ → Bool
is_at none i = false
is_at (some j) i = j == i

-- A node is the root or the child, under a plain name, of a directory.
abbrev pub linked : List Node → ℕ → Option ℕ → Bool
linked ns i none = i == root
linked ns i (some p) =
    ltb p (length ns)
    && is_dir_node (node_at ns p)
    && is_at (find_child ns p (node_at ns i).name) i
    && plain (node_at ns i).name

unfoldable pub node_ok : List Node → ℕ → Bool
node_ok ns i =
    inside ns (node_at ns i).child
    && inside ns (node_at ns i).sibling
    && linked ns i (node_at ns i).parent

unfoldable pub tree_ok : List Node → Bool
tree_ok ns =
    ltb root (length ns)
    && elim (node_at ns root).parent [ none ↦ true | some _ ↦ false ]
    && is_dir_node (node_at ns root)
    && passes (node_ok ns) 0 (length ns)

module _ (ns : List Node) (v : tree_ok ns ≡ true) where
  pub root_inside : root < length ns
  unfolding tree_ok
  root_inside = ground arith

  pub node_ok-at : (i : ℕ) → i < length ns → node_ok ns i ≡ true
  unfolding tree_ok
  node_ok-at i h = passes_at (node_ok ns) (length ns) i (ground arith) h

  pub linked_at :
      (i : ℕ) {p : ℕ} → i < length ns → (node_at ns i).parent ≡ some p → linked ns i (some p) ≡ true
  unfolding node_ok
  linked_at i {p} h e =
      let good = node_ok-at i h in
      let all : linked ns i (node_at ns i).parent ≡ true = ground arith in rw e at all

  pub root_only : (i : ℕ) → i < length ns → (node_at ns i).parent ≡ none → i ≡ root
  unfolding node_ok
  root_only i h e = let good = node_ok-at i h in ground arith

  -- A search from a pointer into the nodes ends in one.
  pub find_from-inside :
      (fuel : ℕ) (c : Option ℕ) (name : CString) {n : ℕ}
      → inside ns c ≡ true
      → find_from ns fuel c name ≡ some n
      → n < length ns
  unfolding find_from node_ok
  find_from-inside zero c name h e = absurd cc
  find_from-inside (suc fuel) none name h e = absurd cc
  find_from-inside (suc fuel) (some i) name {n} h e =
      let good = node_ok-at i (ground arith) in
      elim (Bool-cases (streq (node_at ns i).name name)) [
        | inl same ↦ ground arith
        | inr other ↦
            find_from-inside fuel (node_at ns i).sibling name {n = n} (ground arith) (ground arith)
      ]

  pub step-inside :
      (cur : ℕ) (c : CString) {n : ℕ} → cur < length ns → step ns cur c ≡ ok n → n < length ns
  unfolding step find_child node_ok
  step-inside cur c {n} h e =
      let good = node_ok-at cur h in
      elim (Bool-cases (streq c (46 ∷ []))) [
        | inl dot ↦ ground arith
        | inr no_dot ↦ elim (Bool-cases (streq c (46 ∷ 46 ∷ []))) [
          | inl dots ↦ elim (Option-cases (node_at ns cur).parent) [
            | inl top ↦ ground arith
            | inr (p, up) ↦ ground (arith, linked_at cur h up)
          ]
          | inr no_dots ↦ elim (Option-cases (find_from ns (length ns) (node_at ns cur).child c)) [
            | inl gone ↦ absurd (ground arith)
            | inr (m, found) ↦
                let valid =
                  find_from-inside (length ns) (node_at ns cur).child c (ground arith) found in
                ground arith
          ]
        ]
      ]

  pub follow-inside :
      (cur : ℕ) (cs : List CString) {n : ℕ}
      → cur < length ns
      → follow ns cur cs ≡ ok n
      → n < length ns
  follow-inside cur [] h e = ground arith
  follow-inside cur (c ∷ cs) {n} h e = elim (Ret-cases (step ns cur c)) [
    | inr (x, failed) ↦ absurd (ground arith)
    | inl (m, done) ↦ follow-inside m cs (step-inside cur c h done) (ground arith)
  ]
