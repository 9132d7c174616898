-- ===== src/Vfs/Cwd.antt =====
-- The working directory of kernel/vfs/voidfs.c: the path that chdir stores.
use void.Base.{
  ℕ, zero, suc, ◌+◌, ◌<◌, ◌≡◌, refl, sym, ap, ◌∙◌, Bool, true, false, ◌&&◌, some, List, [], ◌∷◌,
  ◌++◌, leb, ◌==◌, arith, length, ok, Bool-cases, Ret-cases, Option-cases, inl, inr, append_nil,
  append_assoc,
}
use void.Base.Strings.{CString}
use void.Vfs.{
  Node, root, node_at, is_dir_node, find_child, step, climb, assemble, turn, cwd_of, chdir,
  absolutize, resolve_abs, path_max, tree_depth,
}
use void.Vfs.Components.{split, flush, components, follow, resolved, resolve_refines}
use void.Vfs.Tree.{no_slash, plain, tree_ok, linked_at, root_only, root_inside, follow-inside}

-- The components with a slash between any two.
abbrev pub join : List CString → CString
join [] = []
join (c ∷ []) = c
join (c ∷ d ∷ ds) = c ++ 47 ∷ join (d ∷ ds)

abbrev pub all_plain : List CString → Bool
all_plain [] = true
all_plain (c ∷ cs) = plain c && all_plain cs

split_plain : (acc c r : CString) → no_slash c ≡ true → split acc (c ++ r) ≡ split (acc ++ c) r
split_plain acc [] r h = rw (append_nil acc)
split_plain acc (x ∷ c) r h =
    let other : (x == 47) ≡ false = ground arith in
    rw other (split_plain (acc ++ x ∷ []) c r (ground arith) ∙ rw (append_assoc acc (x ∷ []) c))

flush-plain : (c : CString) (cs : List CString) → plain c ≡ true → flush c cs ≡ c ∷ cs
unfolding plain
flush-plain [] cs h = absurd cc
flush-plain (x ∷ c) cs h = refl

plain_slash : (c : CString) → plain c ≡ true → no_slash c ≡ true
unfolding plain
plain_slash c h = ground arith

-- Plain names come back from the path that they are joined to.
pub components-join : (cs : List CString) → all_plain cs ≡ true → components (join cs) ≡ cs
components-join [] h = refl
components-join (c ∷ []) h =
    ap (λ r. split [] r) (sym (append_nil c))
    ∙ (split_plain [] c [] (plain_slash c (ground arith)) ∙ flush-plain c [] (ground arith))
components-join (c ∷ d ∷ ds) h =
    split_plain [] c (47 ∷ join (d ∷ ds)) (plain_slash c (ground arith))
    ∙ (ap (λ r. flush c r) (components-join (d ∷ ds) (ground arith))
        ∙ flush-plain c (d ∷ ds) (ground arith))

all_plain-turn :
    (cs acc : List CString)
    → all_plain cs ≡ true
    → all_plain acc ≡ true
    → all_plain (turn cs acc) ≡ true
all_plain-turn [] acc h g = g
all_plain-turn (c ∷ cs) acc h g = all_plain-turn cs (c ∷ acc) (ground arith) (ground arith)

assemble-join :
    (tmp : CString) (cs : List CString) {r : CString} → assemble tmp cs ≡ ok r → r ≡ tmp ++ join cs
unfolding assemble
assemble-join tmp [] e = rw (append_nil tmp) cc
assemble-join tmp (c ∷ []) e = elim (Bool-cases (leb path_max (length tmp + length c + 0))) [
  | inl long ↦ absurd (ground arith)
  | inr fits ↦ rw (← append_nil c) (ground arith)
]
assemble-join tmp (c ∷ d ∷ ds) {r} e =
    elim (Bool-cases (leb path_max (length tmp + length c + 1))) [
      | inl long ↦ absurd (ground arith)
      | inr fits ↦
          assemble-join (tmp ++ (c ++ 47 ∷ [])) (d ∷ ds) {r = r} (ground arith)
          ∙ (append_assoc tmp (c ++ 47 ∷ []) (join (d ∷ ds))
              ∙ ap (λ s. tmp ++ s) (append_assoc c (47 ∷ []) (join (d ∷ ds))))
    ]

module _ (ns : List Node) (v : tree_ok ns ≡ true) where
  -- A node is what its parent finds under its name.
  step_down :
      (i : ℕ) {p : ℕ}
      → i < length ns
      → (node_at ns i).parent ≡ some p
      → (step ns p (node_at ns i).name ≡ ok i)
        × (p < length ns)
        × (plain (node_at ns i).name ≡ true)
  unfolding step plain
  step_down i {p} h up =
      let good = linked_at ns v i h up in
      elim (Option-cases (find_child ns p (node_at ns i).name)) [
        | inl gone ↦ absurd (ground arith)
        | inr (j, found) ↦ (ground arith, ground arith, ground arith)
      ]

  -- The names on the way up lead back down.
  climb-follow :
      (left i : ℕ) (acc : List CString) {cs : List CString}
      → i < length ns
      → climb ns left i ≡ ok cs
      → (follow ns root (turn cs acc) ≡ follow ns i acc) × (all_plain cs ≡ true)
  unfolding climb
  climb-follow zero i acc {cs} h e = elim (Option-cases (node_at ns i).parent) [
    | inr (p, up) ↦ absurd (ground arith)
    | inl top ↦
        let none_left : cs ≡ [] = ground arith in
        (rw (none_left, root_only ns v i h top), rw none_left)
  ]
  climb-follow (suc left) i acc {cs} h e = elim (Option-cases (node_at ns i).parent) [
    | inl top ↦
        let none_left : cs ≡ [] = ground arith in
        (rw (none_left, root_only ns v i h top), rw none_left)
    | inr (p, up) ↦ elim (Ret-cases (climb ns left p)) [
      | inr (x, failed) ↦ absurd (ground arith)
      | inl (above, done) ↦
          let down = step_down i h up in
          let more : cs ≡ (node_at ns i).name ∷ above = ground arith in
          let rest = climb-follow left p ((node_at ns i).name ∷ acc) down.1 done in
          (rw more (rest.0 ∙ rw (follow, down.0)), rw more (ground (arith, down.2, rest.1)))
    ]
  ]

  -- The working directory that is stored for a directory leads to it.
  pub cwd_of-resolves :
      (i : ℕ) {cwd : CString}
      → i < length ns
      → is_dir_node (node_at ns i) ≡ true
      → cwd_of ns i ≡ ok cwd
      → resolve_abs ns cwd ≡ ok i
  unfolding cwd_of resolved
  cwd_of-resolves i {cwd} h is_directory e = elim (Ret-cases (climb ns tree_depth i)) [
    | inr (x, failed) ↦ absurd (ground arith)
    | inl (cs, done) ↦
        let up = climb-follow tree_depth i [] h done in
        let written : cwd ≡ 47 ∷ join (turn cs []) =
          assemble-join (47 ∷ []) (turn cs []) {r = cwd} (ground arith) in
        let parts : components (join (turn cs [])) ≡ turn cs [] =
          components-join (turn cs []) (all_plain-turn cs [] up.1 refl) in
        resolve_refines ns cwd ∙ rw (written, resolved, parts, up.0, is_directory) (ground arith)
  ]

  pub resolve-inside : (path : CString) {n : ℕ} → resolve_abs ns path ≡ ok n → n < length ns
  unfolding resolved
  resolve-inside path {n} e =
      let spec : resolved ns path ≡ ok n = sym (resolve_refines ns path) ∙ e in
      elim (Ret-cases (follow ns root (components path))) [
        | inr (x, failed) ↦ absurd (ground arith)
        | inl (m, done) ↦
            let valid = follow-inside ns v root (components path) (root_inside ns v) done in
            ground arith
      ]

  -- A chdir that succeeds has resolved its path, taken from the old working directory, to a
  -- directory, and stores a path that resolves to the same directory.
  pub chdir_lem :
      (cwd path : CString) {cwd' : CString}
      → chdir ns cwd path ≡ ok cwd'
      → (abs : CString) × (n : ℕ) × (absolutize cwd path ≡ some abs)
        × (resolve_abs ns abs ≡ ok n)
        × (is_dir_node (node_at ns n) ≡ true)
        × (resolve_abs ns cwd' ≡ ok n)
  unfolding chdir
  chdir_lem cwd path {cwd'} e = elim (Option-cases (absolutize cwd path)) [
    | inl long ↦ absurd (ground arith)
    | inr (abs, whole) ↦ elim (Ret-cases (resolve_abs ns abs)) [
      | inr (x, failed) ↦ absurd (ground arith)
      | inl (n, found) ↦
          let is_directory : is_dir_node (node_at ns n) ≡ true = ground arith in
          (
            abs,
            n,
            whole,
            found,
            is_directory,
            cwd_of-resolves n {cwd = cwd'} (resolve-inside abs found) is_directory (ground arith),
          )
    ]
  ]
