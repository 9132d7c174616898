-- ===== src/Vfs/Components.antt =====
-- The resolution of a path in kernel/vfs/voidfs.c against its list of components.
use void.Base.{
  ℕ, zero, suc, ◌≤◌, ◌≡◌, refl, sym, ◌∙◌, false, not, ◌&&◌, List, [], ◌∷◌, ◌++◌, ◌==◌, arith,
  if◌then◌else◌, length, Ret, ok, err, inval, not_dir, Bool-cases, Ret-cases, inl, inr, append_nil,
  append_assoc,
}
use void.Base.Strings.{CString}
use void.Vfs.{
  Node, is_absolute, root, node_at, is_dir_node, step, skip_slashes, comp_of, rest_of, walk,
  ends_in_slash, resolve_abs,
}

abbrev pub flush : CString → List CString → List CString
flush [] cs = cs
flush (x ∷ xs) cs = (x ∷ xs) ∷ cs

-- The names between the slashes; `acc` is the part of the current one that has been read.
abbrev pub split : CString → List ℕ → List CString
split acc [] = flush acc []
split acc (c ∷ p) = if c == 47 then flush acc (split [] p) else split (acc ++ c ∷ []) p

abbrev pub components : List ℕ → List CString
components p = split [] p

-- The nodes that a list of components leads through.
abbrev pub follow : List Node → ℕ → List CString → Ret ℕ
follow ns cur [] = ok cur
follow ns cur (c ∷ cs) = elim (step ns cur c) [ ok n ↦ follow ns n cs | err e ↦ err e ]

split_first :
    (acc : CString) (q : List ℕ) → split acc q ≡ flush (acc ++ comp_of q) (components (rest_of q))
unfolding comp_of rest_of
split_first acc [] = rw (append_nil acc)
split_first acc (c ∷ q) = elim (Bool-cases (c == 47)) [
  | inl slash ↦ ground (arith, append_nil acc)
  | inr other ↦
      rw (other) (split_first (acc ++ c ∷ []) q ∙ rw (append_assoc acc (c ∷ []) (comp_of q)))
]

components-skip : (p : List ℕ) → components (skip_slashes p) ≡ components p
unfolding skip_slashes
components-skip [] = refl
components-skip (c ∷ p) = elim (Bool-cases (c == 47)) [
  | inl slash ↦ rw slash (components-skip p)
  | inr other ↦ ground arith
]

skip_slashes_head : (p : List ℕ) {c : ℕ} {q : List ℕ} → skip_slashes p ≡ c ∷ q → (c == 47) ≡ false
unfolding skip_slashes
skip_slashes_head [] e = absurd cc
skip_slashes_head (x ∷ p) {c} {q} e = ground (arith, skip_slashes_head p {c = c} {q = q})

length-skip : (p : List ℕ) → length (skip_slashes p) ≤ length p
unfolding skip_slashes
length-skip [] = omega arith
length-skip (c ∷ p) = ground (arith, length-skip p)

length-rest : (p : List ℕ) → length (rest_of p) ≤ length p
unfolding rest_of
length-rest [] = omega arith
length-rest (c ∷ p) = ground (arith, length-rest p)

no_components : (p : List ℕ) → skip_slashes p ≡ [] → components p ≡ []
no_components p e = sym (components-skip p) ∙ rw e

first_component :
    (p : List ℕ) {c : ℕ} {q : List ℕ}
    → skip_slashes p ≡ c ∷ q
    → components p ≡ comp_of (c ∷ q) ∷ components (rest_of (c ∷ q))
unfolding comp_of rest_of
first_component p {c} {q} e =
    let other = skip_slashes_head p e in
    sym (components-skip p) ∙ rw (e, other) (split_first (c ∷ []) q)

shorter :
    (p : List ℕ) {c fuel : ℕ} {q : List ℕ}
    → skip_slashes p ≡ c ∷ q
    → length p ≤ suc fuel
    → length (rest_of (c ∷ q)) ≤ fuel
unfolding rest_of
shorter p {c} {fuel} {q} e enough =
    let other = skip_slashes_head p e in
    let less : suc (length q) ≤ suc fuel = omega (arith, rw e at (length-skip p), enough) in
    rw other (omega (arith, length-rest q, less))

walk_round :
    (ns : List Node) (fuel cur : ℕ) (p s : List ℕ)
    → length p ≤ suc fuel
    → ((n : ℕ) (q : List ℕ) → length q ≤ fuel → walk ns fuel n q ≡ follow ns n (components q))
    → skip_slashes p ≡ s
    → walk ns (suc fuel) cur p ≡ follow ns cur (components p)
unfolding walk
walk_round ns fuel cur p [] enough later e = rw (walk, e, no_components p e)
walk_round ns fuel cur p (c ∷ q) enough later e = elim (Ret-cases (step ns cur (comp_of (c ∷ q)))) [
  | inr (x, failed) ↦ rw (first_component p e, walk, follow, e, failed)
  | inl (n, done) ↦
      rw (first_component p e, walk, follow, e, done)
        (later n (rest_of (c ∷ q)) (shorter p e enough))
]

-- With fuel for every byte, the loop goes through the components.
pub walk-follow :
    (ns : List Node) (fuel cur : ℕ) (p : List ℕ)
    → length p ≤ fuel
    → walk ns fuel cur p ≡ follow ns cur (components p)
unfolding walk
walk-follow ns zero cur [] enough = refl
walk-follow ns zero cur (c ∷ p) enough = absurd (omega arith)
walk-follow ns (suc fuel) cur p enough =
    walk_round ns fuel cur p (skip_slashes p) enough (λ n q. walk-follow ns fuel n q) refl

-- What vfs_resolve_abs promises: an absolute path leads through its components from the root, and
-- one that ends in a slash must lead to a directory.
unfoldable pub resolved : List Node → CString → Ret ℕ
resolved ns path =
    if not (is_absolute path) then err inval else elim (follow ns root (components path)) [
      | err e ↦ err e
      | ok n ↦ if ends_in_slash path && not (is_dir_node (node_at ns n)) then err not_dir else ok n
    ]

-- vfs_resolve_abs leads through the components of the path, whatever slashes stand between them.
pub resolve_refines : (ns : List Node) (path : CString) → resolve_abs ns path ≡ resolved ns path
unfolding resolve_abs resolved
resolve_refines ns [] = refl
resolve_refines ns (c ∷ p) = elim (Bool-cases (c == 47)) [
  | inr other ↦ rw other
  | inl slash ↦ ground (arith, walk-follow ns (length p) root p (omega arith))
]
