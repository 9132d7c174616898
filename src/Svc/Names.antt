-- ===== src/Svc/Names.antt =====
-- What the name table of the service registry (kernel/svc/svc.c) finds after each operation.
use void.Base.{
  ℕ, zero, suc, ◌+◌, ◌≡◌, refl, true, false, Option, none, some, List, [], ◌∷◌, arith, ◌==◌,
  if◌then◌else◌, ok, Ret-cases, Option-cases, Bool-cases, inl, inr, ◌⊎◌,
}
use void.Svc.{
  Name, Service, entry_free, same_name, find_name, next_index, add_from, free_at, cleanup_owner,
}

pub same_name_refl : (n : Name) → same_name n n ≡ true
unfolding same_name
same_name_refl [] = refl
same_name_refl (x ∷ xs) = ground (arith, same_name_refl xs)

pub same_name_eq : (m n : Name) → same_name m n ≡ true → m ≡ n
unfolding same_name
same_name_eq [] [] h = refl
same_name_eq [] (y ∷ ys) h = cc
same_name_eq (x ∷ xs) [] h = cc
same_name_eq (x ∷ xs) (y ∷ ys) h = ground (arith, same_name_eq xs ys)

-- The service under a name, without its place.
abbrev pub service : Option (ℕ × Service) → Option Service
service none = none
service (some (i, s)) = some s

service-next : (o : Option (ℕ × Service)) → service (next_index o) ≡ service o
service-next none = refl
service-next (some (i, s)) = refl

abbrev pub pick : Service → Name → Option Service → Option Service
pick e n rest = if entry_free e then rest else if same_name e.name n then some e else rest

pub service-cons :
    (e : Service) (es : List Service) (n : Name)
    → service (find_name (e ∷ es) n) ≡ pick e n (service (find_name es n))
unfolding find_name
service-cons e es n = ground (arith, service-next (find_name es n))

pub find-nil : (m : Name) → service (find_name [] m) ≡ none
unfolding find_name
find-nil m = refl

pub service-none : (o : Option (ℕ × Service)) → service o ≡ none → o ≡ none
service-none none h = refl
service-none (some (i, s)) h = cc

-- No two live entries have one name.
abbrev pub Unique : List Service → Type 0
Unique [] = Unit {0}
Unique (e ∷ es) = (entry_free e ≡ false → service (find_name es e.name) ≡ none) × Unique es

-- A name that was free finds the new entry, and every other name finds what it found before.
pub find-add_self :
    (es : List Service) (n : ℕ) (new : Service) {es' : List Service}
    → entry_free new ≡ false
    → service (find_name es new.name) ≡ none
    → add_from n es new ≡ ok es'
    → service (find_name es' new.name) ≡ some new
unfolding add_from
find-add_self [] n new live gone e =
    ground (arith, service-cons new [] new.name, same_name_refl new.name)
find-add_self (x ∷ es) n new live gone e = elim (Bool-cases (entry_free x)) [
  | inl free ↦ ground (arith, service-cons new es new.name, same_name_refl new.name)
  | inr full ↦ elim (Ret-cases (add_from (n + 1) es new)) [
    | inr (y, e') ↦ ground arith
    | inl (es', e') ↦ ground (
      arith,
      service-cons x es new.name,
      service-cons x es' new.name,
      find-add_self es (n + 1) new {es' = es'} live,
    )
  ]
]

pub find-add_ne :
    (es : List Service) (n : ℕ) (new : Service) {es' : List Service} (m : Name)
    → same_name new.name m ≡ false
    → add_from n es new ≡ ok es'
    → service (find_name es' m) ≡ service (find_name es m)
unfolding add_from
find-add_ne [] n new m ne e = ground (arith, service-cons new [] m)
find-add_ne (x ∷ es) n new m ne e = elim (Bool-cases (entry_free x)) [
  | inl free ↦ ground (arith, service-cons new es m, service-cons x es m)
  | inr full ↦ elim (Ret-cases (add_from (n + 1) es new)) [
    | inr (y, e') ↦ ground arith
    | inl (es', e') ↦ ground (
      arith,
      service-cons x es m,
      service-cons x es' m,
      find-add_ne es (n + 1) new {es' = es'} m ne,
    )
  ]
]

Unique-tail :
    (e : Service) (es : List Service) (m : Name)
    → Unique (e ∷ es)
    → entry_free e ≡ false
    → same_name e.name m ≡ true
    → service (find_name es m) ≡ none
Unique-tail e es m u live same = rw (← same_name_eq e.name m same) (u.0 live)

pub freed : (e : Service) → entry_free (record e { name = [] }) ≡ true
unfolding entry_free
freed e = refl

-- What is left of a search result when the entries of an owner are dropped.
abbrev pub kept : ℕ → Option Service → Option Service
kept owner none = none
kept owner (some s) = if s.owner_pid == owner then none else some s

-- After the cleanup no name finds an entry of the owner, and the other owners' entries stay.
pub find-cleanup :
    (es : List Service) (owner : ℕ) (m : Name)
    → Unique es
    → service (find_name (cleanup_owner es owner) m) ≡ kept owner (service (find_name es m))
unfolding cleanup_owner
find-cleanup [] owner m u = ground (arith, find-nil m)
find-cleanup (e ∷ es) owner m u = ground (
  arith,
  freed e,
  find-cleanup es owner m u.1,
  Unique-tail e es m u,
  service-cons e es m,
  service-cons e (cleanup_owner es owner) m,
  service-cons (record e { name = [] }) (cleanup_owner es owner) m,
)

same_name_join : (a b c : Name) → same_name a c ≡ true → same_name b c ≡ true → same_name a b ≡ true
same_name_join a b c p q = rw (same_name_eq a c p, same_name_eq b c q) (same_name_refl c)

same_name_trans :
    (a b c : Name) → same_name a b ≡ true → same_name b c ≡ true → same_name a c ≡ true
same_name_trans a b c p q = rw (same_name_eq a b p) q

found_here :
    (x : Service) (es : List Service) (m : Name) {s : Service}
    → find_name (x ∷ es) m ≡ some (0, s)
    → (entry_free x ≡ false) × (same_name x.name m ≡ true) × (s ≡ x)
unfolding find_name
found_here x es m e = elim (Option-cases (find_name es m)) [
  | inl gone ↦ ground arith
  | inr ((j, t), e') ↦ ground arith
]

found_later :
    (x : Service) (es : List Service) (m : Name) {i : ℕ} {s : Service}
    → find_name (x ∷ es) m ≡ some (suc i, s)
    → (find_name es m ≡ some (i, s)) × ((entry_free x ≡ true) ⊎ (same_name x.name m ≡ false))
unfolding find_name
found_later x es m e = elim (Option-cases (find_name es m)) [
  | inl gone ↦ ground arith
  | inr ((j, t), e') ↦ ground arith
]

-- Freeing the slot that a name finds takes that name away and no other.
pub find-free :
    (es : List Service) (m k : Name) {i : ℕ} {s : Service}
    → Unique es
    → find_name es m ≡ some (i, s)
    → service (find_name (free_at es i) k)
      ≡ (if same_name m k then none else service (find_name es k))
unfolding free_at
find-free [] m k u e = ground (arith, find-nil m)
find-free (x ∷ es) m k {i = zero} u e = ground (
  arith,
  freed x,
  found_here x es m e,
  Unique-tail x es k u,
  same_name_trans x.name m k,
  same_name_trans m x.name k,
  same_name_join m x.name m,
  same_name_refl m,
  service-cons x es k,
  service-cons (record x { name = [] }) es k,
)
find-free (x ∷ es) m k {i = suc i} {s} u e =
    let later = found_later x es m e in
    ground (
      arith,
      later.1,
      find-free es m k {i = i} {s = s} u.1 later.0,
      same_name_join x.name m k,
      service-cons x es k,
      service-cons x (free_at es i) k,
    )
