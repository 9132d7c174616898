-- ===== src/Ipc/Registry/Lookup.antt =====
-- What a lookup finds after each operation of the registry (kernel/ipc/ipc.c).
use void.Base.{
  ℕ, zero, suc, ◌+◌, ◌≡◌, refl, ◌≢◌, Option, none, some, [], ◌∷◌, arith, ok, Ret-cases,
  Option-cases, inl, inr,
}
use void.Base.{◌⊎◌}
use void.Ipc.Queue.{Endpoint}
use void.Ipc.Registry.{
  Entry, Registry, hit, shift, lookup, register_from, store, release_owned, unregister_by_owner,
}

-- The endpoint under a key, if there is a live one.
abbrev pub found : Option (ℕ × Endpoint) → Option Endpoint
found none = none
found (some (i, ep)) = some ep

pub lookup-unregister_self :
    (r : Registry) (owner id : ℕ) → lookup (unregister_by_owner r owner) owner id ≡ none
unfolding lookup unregister_by_owner hit release_owned
lookup-unregister_self [] owner id = refl
lookup-unregister_self (e ∷ es) owner id = ground (arith, lookup-unregister_self es owner id)

pub lookup-unregister_ne :
    (r : Registry) (owner pid id : ℕ)
    → pid ≢ owner
    → lookup (unregister_by_owner r owner) pid id ≡ lookup r pid id
unfolding lookup unregister_by_owner hit release_owned
lookup-unregister_ne [] owner pid id ne = refl
lookup-unregister_ne (e ∷ es) owner pid id ne =
    ground (arith, lookup-unregister_ne es owner pid id ne)

pub found-shift : (o : Option (ℕ × Endpoint)) → found (shift o) ≡ found o
found-shift none = refl
found-shift (some (i, ep)) = refl

found-cons :
    (e : Entry) (es : Registry) (pid id : ℕ)
    → found (lookup (e ∷ es) pid id)
      ≡ elim (hit e pid id) [ some ep ↦ some ep | none ↦ found (lookup es pid id) ]
unfolding lookup
found-cons e es pid id = ground (arith, found-shift (lookup es pid id))

hit-none : (e : Entry) (pid id : ℕ) → e.endpoint ≡ none → hit e pid id ≡ none
unfolding hit
hit-none e pid id h = ground arith

-- Registering an endpoint leaves what is found under every other key.
pub lookup-register_ne :
    (r : Registry) (n : ℕ) (new : Entry) {r' : Registry} (pid id : ℕ)
    → hit new pid id ≡ none
    → register_from n r new ≡ ok r'
    → found (lookup r' pid id) ≡ found (lookup r pid id)
unfolding register_from
lookup-register_ne [] n new pid id miss e = ground (arith, found-cons new [] pid id)
lookup-register_ne (x ∷ es) n new {r'} pid id miss e = elim (Option-cases x.endpoint) [
  | inl gone ↦
      ground (arith, hit-none x pid id gone, found-cons x es pid id, found-cons new es pid id)
  | inr (ep, there) ↦ elim (Ret-cases (register_from (n + 1) es new)) [
    | inr (y, e') ↦ ground arith
    | inl (es', e') ↦ ground (
      arith,
      lookup-register_ne es (n + 1) new pid id miss e',
      found-cons x es pid id,
      found-cons x es' pid id,
    )
  ]
]

lookup_tail_none :
    (x : Entry) (es : Registry) (pid id : ℕ)
    → lookup (x ∷ es) pid id ≡ none
    → (hit x pid id ≡ none) × (lookup es pid id ≡ none)
unfolding lookup
lookup_tail_none x es pid id h = ground arith

-- An endpoint registered under a key that was free is found there.
pub lookup-register_self :
    (r : Registry) (n : ℕ) (new : Entry) {r' : Registry} (pid id : ℕ) {ep : Endpoint}
    → hit new pid id ≡ some ep
    → lookup r pid id ≡ none
    → register_from n r new ≡ ok r'
    → found (lookup r' pid id) ≡ some ep
unfolding register_from
lookup-register_self [] n new pid id mine free e = ground (arith, found-cons new [] pid id)
lookup-register_self (x ∷ es) n new pid id mine free e = elim (Option-cases x.endpoint) [
  | inl gone ↦ ground (arith, found-cons new es pid id)
  | inr (y, there) ↦ elim (Ret-cases (register_from (n + 1) es new)) [
    | inr (z, e') ↦ ground arith
    | inl (es', e') ↦ ground (
      arith,
      lookup_tail_none x es pid id free,
      lookup-register_self es (n + 1) new pid id mine (lookup_tail_none x es pid id free).1 e',
      found-cons x es' pid id,
    )
  ]
]

-- What a key finds when an endpoint that another key's lookup found has been written to: the write
-- shows under its own key and nowhere else.
pub lookup-store_self :
    (r : Registry) (pid id : ℕ) {i : ℕ} {ep : Endpoint} (new : Endpoint)
    → lookup r pid id ≡ some (i, ep)
    → lookup (store r i new) pid id ≡ some (i, new)
unfolding lookup store hit
lookup-store_self [] pid id new e = ground arith
lookup-store_self (x ∷ es) pid id {i = zero} new e = ground arith
lookup-store_self (x ∷ es) pid id {i = suc i} {ep} new e =
    ground (arith, lookup-store_self es pid id {i = i} {ep = ep} new)

pub lookup-store_ne :
    (r : Registry) (pid id pid' id' : ℕ) {i : ℕ} {ep : Endpoint} (new : Endpoint)
    → lookup r pid id ≡ some (i, ep)
    → (pid' ≢ pid) ⊎ (id' ≢ id)
    → lookup (store r i new) pid' id' ≡ lookup r pid' id'
unfolding lookup store hit
lookup-store_ne [] pid id pid' id' new e ne = ground arith
lookup-store_ne (x ∷ es) pid id pid' id' {i = zero} new e ne = ground arith
lookup-store_ne (x ∷ es) pid id pid' id' {i = suc i} {ep} new e ne =
    ground (arith, lookup-store_ne es pid id pid' id' {i = i} {ep = ep} new)

-- Every slot below the mark is in use.
abbrev pub AllLive : Registry → Type 0
AllLive [] = Unit {0}
AllLive (e ∷ es) = (e.endpoint ≢ none) × AllLive es

-- With no released slot a new endpoint goes behind an older one of the same key, which is what a
-- lookup then still finds.
pub lookup-register_shadowed :
    (r : Registry) (n : ℕ) (new : Entry) {r' : Registry} (pid id : ℕ) {i : ℕ} {ep : Endpoint}
    → AllLive r
    → lookup r pid id ≡ some (i, ep)
    → register_from n r new ≡ ok r'
    → lookup r' pid id ≡ some (i, ep)
unfolding lookup register_from
lookup-register_shadowed [] n new pid id live old e = ground arith
lookup-register_shadowed (x ∷ es) n new pid id {i} {ep} live old e =
    elim (Ret-cases (register_from (n + 1) es new)) [
      | inr (y, e') ↦ ground arith
      | inl (es', e') ↦ elim (Option-cases (lookup es pid id)) [
        | inl gone ↦ ground arith
        | inr ((j, there), e'') ↦
            ground (arith, lookup-register_shadowed es (n + 1) new pid id live.1 e'' e')
      ]
    ]
