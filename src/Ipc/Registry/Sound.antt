-- ===== src/Ipc/Registry/Sound.antt =====
-- When the endpoints that the registry of kernel/ipc/ipc.c holds are well formed: their queues are
-- valid and they carry the key under which they are registered.
use void.Base.{
  ℕ, zero, suc, ◌+◌, ◌≤◌, ◌≡◌, refl, Option, none, some, [], ◌∷◌, arith, length, ok, Ret-cases,
  Option-cases, inl, inr,
}
use void.Ipc.Queue.{Endpoint}
use void.Ipc.Queue.Fifo.{IsValid}
use void.Ipc.Registry.{
  Entry, Registry, hit, lookup, register_from, store, release_owned, unregister_by_owner,
}

abbrev pub EndpointOk : ℕ → ℕ → Option Endpoint → Type 0
EndpointOk owner id none = Unit {0}
EndpointOk owner id (some ep) = IsValid ep × (ep.owner_pid ≡ owner) × (ep.endpoint_id ≡ id)

abbrev pub EntryOk : Entry → Type 0
EntryOk e = EndpointOk e.owner_pid e.endpoint_id e.endpoint

abbrev pub AllOk : Registry → Type 0
AllOk [] = Unit {0}
AllOk (e ∷ es) = EntryOk e × AllOk es

-- The entries are sound, and the high-water mark is within the array.
pub record RegistryOk (r : Registry) : Type 0 where
  pub entries : AllOk r
  pub bounded : length r ≤ 1024

pub register-AllOk :
    (r : Registry) (n : ℕ) (new : Entry) {r' : Registry}
    → EntryOk new
    → AllOk r
    → n + length r ≤ 1024
    → register_from n r new ≡ ok r'
    → AllOk r' × (n + length r' ≤ 1024)
unfolding register_from
register-AllOk [] n new v a b e = ground arith
register-AllOk (x ∷ es) n new v a b e = elim (Option-cases x.endpoint) [
  | inl gone ↦ ground arith
  | inr (ep, there) ↦ elim (Ret-cases (register_from (n + 1) es new)) [
    | inr (y, e') ↦ ground arith
    | inl (es', e') ↦ ground (arith, register-AllOk es (n + 1) new {r' = es'} v a.1)
  ]
]

-- The endpoint that a lookup finds is valid and carries the key.
pub lookup-EndpointOk :
    (r : Registry) (owner id : ℕ) {i : ℕ} {ep : Endpoint}
    → AllOk r
    → lookup r owner id ≡ some (i, ep)
    → IsValid ep × (ep.owner_pid ≡ owner) × (ep.endpoint_id ≡ id)
unfolding lookup hit
lookup-EndpointOk [] owner id a e = ground arith
lookup-EndpointOk (x ∷ es) owner id {i = zero} {ep} a e = ground arith
lookup-EndpointOk (x ∷ es) owner id {i = suc i} {ep} a e =
    ground (arith, lookup-EndpointOk es owner id {i = i} {ep = ep} a.1)

pub store-AllOk :
    (r : Registry) (owner id : ℕ) {i : ℕ} {ep : Endpoint} (new : Endpoint)
    → AllOk r
    → lookup r owner id ≡ some (i, ep)
    → IsValid new
    → new.owner_pid ≡ owner
    → new.endpoint_id ≡ id
    → AllOk (store r i new)
unfolding lookup hit store
store-AllOk [] owner id new a e v o d = ground arith
store-AllOk (x ∷ es) owner id {i = zero} new a e v o d = ground arith
store-AllOk (x ∷ es) owner id {i = suc i} {ep} new a e v o d =
    ground (arith, store-AllOk es owner id {i = i} {ep = ep} new a.1)

pub length-store : (r : Registry) (i : ℕ) (new : Endpoint) → length (store r i new) ≡ length r
unfolding store
length-store [] i new = refl
length-store (x ∷ es) zero new = refl
length-store (x ∷ es) (suc i) new = omega (arith, length-store es i new)

pub unregister-AllOk : (r : Registry) (owner : ℕ) → AllOk r → AllOk (unregister_by_owner r owner)
unfolding unregister_by_owner release_owned
unregister-AllOk [] owner a = tt
unregister-AllOk (x ∷ es) owner a = ground (arith, unregister-AllOk es owner a.1)

pub length-unregister : (r : Registry) (owner : ℕ) → length (unregister_by_owner r owner) ≡ length r
unfolding unregister_by_owner
length-unregister [] owner = refl
length-unregister (x ∷ es) owner = omega (arith, length-unregister es owner)
