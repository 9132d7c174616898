-- ===== src/Ipc/Registry.antt =====
-- The global endpoint registry: kernel/ipc/ipc.c, lines 17 to 64.
-- The list holds the entries below the high-water mark `ipc_endpoint_registry_count`; what lies
-- behind the mark is never read. A pointer to an endpoint is its index in the registry, since only
-- the registry holds such pointers across calls.
pub mod Lookup
pub mod Sound
use Prim.Native.Nat.{compare, Ordering}
use void.Base.{
  ℕ, zero, suc, ◌+◌, ◌≡◌, Bool, true, ◌&&◌, Option, none, some, List, [], ◌∷◌, ◌++◌, ltb, ◌==◌,
  if◌then◌else◌, length, Ret, ok, err, nomem,
}
use void.Ipc.Queue.{Endpoint}

abbrev pub max_total_endpoints : ℕ
max_total_endpoints = 1024

-- `endpoint` is `none` where the source has NULL: a released slot.
pub record Entry : Type 0 where
  pub endpoint : Option Endpoint
  pub owner_pid : ℕ
  pub endpoint_id : ℕ

abbrev pub Registry : Type 0
Registry = List Entry

-- The endpoint of an entry whose key is the pair asked for.
unfoldable pub hit : Entry → ℕ → ℕ → Option Endpoint
hit e owner id = if e.owner_pid == owner && e.endpoint_id == id then e.endpoint else none

abbrev pub shift : Option (ℕ × Endpoint) → Option (ℕ × Endpoint)
shift none = none
shift (some (i, ep)) = some (suc i, ep)

-- The first live entry with the key: its index and its endpoint.
unfoldable pub lookup : Registry → ℕ → ℕ → Option (ℕ × Endpoint)
lookup [] owner id = none
lookup (e ∷ es) owner id =
    let rest = shift (lookup es owner id) in
    elim (hit e owner id) [ some ep ↦ some (0, ep) | none ↦ rest ]

-- Reuse a released slot first, then grow the high-water mark; `n` slots lie before the list.
unfoldable pub register_from : ℕ → Registry → Entry → Ret Registry
register_from n [] new = if ltb n max_total_endpoints then ok (new ∷ []) else err nomem
register_from n (e ∷ es) new =
    let rest = register_from (n + 1) es new in
    elim e.endpoint [
      | none ↦ ok (new ∷ es)
      | some _ ↦ elim rest [ ok es' ↦ ok (e ∷ es') | err x ↦ err x ]
    ]

unfoldable pub register : Registry → Endpoint → ℕ → ℕ → Ret Registry
unfolding register_from
register r ep owner id =
    register_from 0 r (record { endpoint = some ep; owner_pid = owner; endpoint_id = id })

-- `*ep = ...` through the pointer.
unfoldable pub store : Registry → ℕ → Endpoint → Registry
store [] i ep = []
store (e ∷ es) zero ep = record e { endpoint = some ep } ∷ es
store (e ∷ es) (suc i) ep = e ∷ store es i ep

unfoldable pub release_owned : ℕ → Entry → Entry
release_owned owner e = if e.owner_pid == owner then record e { endpoint = none } else e

unfoldable pub unregister_by_owner : Registry → ℕ → Registry
unregister_by_owner [] owner = []
unregister_by_owner (e ∷ es) owner = release_owned owner e ∷ unregister_by_owner es owner
