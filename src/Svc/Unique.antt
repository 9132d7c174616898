-- ===== src/Svc/Unique.antt =====
-- Names that stand once in the name table of kernel/svc/svc.c.
use void.Base.{
  ℕ, zero, suc, ◌+◌, ◌≤◌, length, ◌≡◌, refl, true, false, none, List, [], ◌∷◌, arith, ok, Ret-cases,
  Bool-cases, inl, inr,
}
use void.Svc.{
  Name, Service, entry_free, same_name, find_name, add_from, free_at, on_endpoint_close,
  cleanup_owner,
}
use void.Svc.Names.{
  Unique, service, service-cons, find-nil, freed, same_name_refl, same_name_eq, find-add_ne,
}

same_name_swap : (m n : Name) → same_name m n ≡ false → same_name n m ≡ false
same_name_swap m n ne = elim (Bool-cases (same_name n m)) [
  | inl eq ↦ ground (arith, subst_same n m eq)
  | inr r ↦ r
]
  where
    subst_same : (n m : Name) → same_name n m ≡ true → same_name m n ≡ true
    subst_same n m e = rw (same_name_eq n m e) (same_name_refl m)

pub Unique-add :
    (es : List Service) (n : ℕ) (new : Service) {es' : List Service}
    → service (find_name es new.name) ≡ none
    → Unique es
    → add_from n es new ≡ ok es'
    → Unique es'
unfolding add_from
Unique-add [] n new gone u e = ground (arith, find-nil new.name)
Unique-add (x ∷ es) n new gone u e = elim (Bool-cases (entry_free x)) [
  | inl free ↦ ground (arith, service-cons x es new.name)
  | inr full ↦ elim (Ret-cases (add_from (n + 1) es new)) [
    | inr (y, e') ↦ ground arith
    | inl (es', e') ↦ ground (
      arith,
      service-cons x es new.name,
      same_name_swap x.name new.name,
      find-add_ne es (n + 1) new {es' = es'} x.name,
      Unique-add es (n + 1) new {es' = es'},
    )
  ]
]

-- A name that finds nothing still finds nothing when slots are freed.
find-free_none :
    (es : List Service) (i : ℕ) (m : Name)
    → service (find_name es m) ≡ none
    → service (find_name (free_at es i) m) ≡ none
unfolding free_at
find-free_none [] i m h = h
find-free_none (x ∷ es) zero m h =
    ground (arith, freed x, service-cons x es m, service-cons (record x { name = [] }) es m)
find-free_none (x ∷ es) (suc i) m h =
    ground (arith, service-cons x es m, service-cons x (free_at es i) m, find-free_none es i m)

pub Unique-free : (es : List Service) (i : ℕ) → Unique es → Unique (free_at es i)
unfolding free_at
Unique-free [] i u = tt
Unique-free (x ∷ es) zero u = ground (arith, freed x)
Unique-free (x ∷ es) (suc i) u = ground (arith, find-free_none es i x.name, Unique-free es i u.1)

find-cleanup_none :
    (es : List Service) (owner : ℕ) (m : Name)
    → service (find_name es m) ≡ none
    → service (find_name (cleanup_owner es owner) m) ≡ none
unfolding cleanup_owner
find-cleanup_none [] owner m h = h
find-cleanup_none (x ∷ es) owner m h = ground (
  arith,
  freed x,
  service-cons x es m,
  service-cons x (cleanup_owner es owner) m,
  service-cons (record x { name = [] }) (cleanup_owner es owner) m,
  find-cleanup_none es owner m,
)

pub Unique-cleanup : (es : List Service) (owner : ℕ) → Unique es → Unique (cleanup_owner es owner)
unfolding cleanup_owner
Unique-cleanup [] owner u = tt
Unique-cleanup (x ∷ es) owner u =
    ground (arith, freed x, find-cleanup_none es owner x.name, Unique-cleanup es owner u.1)

-- The hook frees at most one slot, so it is an instance of the above or changes nothing.
find-close_none :
    (es : List Service) (owner id : ℕ) (m : Name)
    → service (find_name es m) ≡ none
    → service (find_name (on_endpoint_close es owner id) m) ≡ none
unfolding on_endpoint_close
find-close_none [] owner id m h = h
find-close_none (x ∷ es) owner id m h = ground (
  arith,
  freed x,
  service-cons x es m,
  service-cons x (on_endpoint_close es owner id) m,
  service-cons (record x { name = [] }) es m,
  find-close_none es owner id m,
)

pub Unique-close :
    (es : List Service) (owner id : ℕ) → Unique es → Unique (on_endpoint_close es owner id)
unfolding on_endpoint_close
Unique-close [] owner id u = tt
Unique-close (x ∷ es) owner id u =
    ground (arith, freed x, find-close_none es owner id x.name, Unique-close es owner id u.1)

pub length-add :
    (es : List Service) (n : ℕ) (new : Service) {es' : List Service}
    → n + length es ≤ 64
    → add_from n es new ≡ ok es'
    → n + length es' ≤ 64
unfolding add_from
length-add [] n new b e = ground arith
length-add (x ∷ es) n new b e = elim (Ret-cases (add_from (n + 1) es new)) [
  | inr (y, e') ↦ ground arith
  | inl (es', e') ↦ ground (arith, length-add es (n + 1) new {es' = es'})
]

pub length-free : (es : List Service) (i : ℕ) → length (free_at es i) ≡ length es
unfolding free_at
length-free [] i = refl
length-free (x ∷ es) zero = refl
length-free (x ∷ es) (suc i) = omega (arith, length-free es i)

pub length-close :
    (es : List Service) (owner id : ℕ) → length (on_endpoint_close es owner id) ≡ length es
unfolding on_endpoint_close
length-close [] owner id = refl
length-close (x ∷ es) owner id = ground (arith, length-close es owner id)

pub length-cleanup : (es : List Service) (owner : ℕ) → length (cleanup_owner es owner) ≡ length es
unfolding cleanup_owner
length-cleanup [] owner = refl
length-cleanup (x ∷ es) owner = omega (arith, length-cleanup es owner)
