-- ===== src/Svc.antt =====
-- The service registry, kernel/svc/svc.c: names of at most 31 bytes for endpoints.
-- A C string is the list of its bytes before the NUL; a slot whose name is empty is free. The list
-- holds the slots below `svc_count`.
pub mod Names
pub mod Unique
pub mod Calls
pub mod Sound
pub mod Publish
use void.Base.{
  ℕ, zero, suc, ◌+◌, Bool, true, false, ◌&&◌, Option, none, some, List, [], ◌∷◌, ltb, leb, ◌==◌,
  if◌then◌else◌, length, Ret, ok, err, inval, nomem,
}

abbrev pub name_len : ℕ
name_len = 32

abbrev pub max_services : ℕ
max_services = 64

abbrev pub Name : Type 0
Name = List ℕ

pub record Service : Type 0 where
  pub name : Name
  pub owner_pid : ℕ
  pub endpoint_id : ℕ

unfoldable pub validate_name : Name → Ret ℕ
validate_name name =
    if length name == 0
    then err inval
    else if leb name_len (length name)
    then err inval
    else ok (length name)

unfoldable pub entry_free : Service → Bool
entry_free e = elim e.name [ [] ↦ true | _ ∷ _ ↦ false ]

-- The comparison loop of svc_find_name.
unfoldable pub same_name : Name → Name → Bool
same_name [] [] = true
same_name [] (y ∷ ys) = false
same_name (x ∷ xs) [] = false
same_name (x ∷ xs) (y ∷ ys) = if x == y then same_name xs ys else false

abbrev pub next_index : Option (ℕ × Service) → Option (ℕ × Service)
next_index none = none
next_index (some (i, s)) = some (suc i, s)

unfoldable pub find_name : List Service → Name → Option (ℕ × Service)
unfolding entry_free same_name
find_name [] name = none
find_name (e ∷ es) name =
    let rest = next_index (find_name es name) in
    if entry_free e then rest else if same_name e.name name then some (0, e) else rest

-- svc_free_slot and the writes that fill the slot; `n` slots lie before the list.
unfoldable pub add_from : ℕ → List Service → Service → Ret (List Service)
unfolding entry_free
add_from n [] new = if leb max_services n then err nomem else ok (new ∷ [])
add_from n (e ∷ es) new =
    let rest = add_from (n + 1) es new in
    if entry_free e then ok (new ∷ es) else elim rest [ ok es' ↦ ok (e ∷ es') | err x ↦ err x ]

unfoldable pub add : List Service → Service → Ret (List Service)
unfolding add_from
add es new = add_from 0 es new

unfoldable pub free_at : List Service → ℕ → List Service
free_at [] i = []
free_at (e ∷ es) zero = record e { name = [] } ∷ es
free_at (e ∷ es) (suc i) = e ∷ free_at es i

-- svc_on_endpoint_close: only the first live entry of the endpoint is freed.
unfoldable pub on_endpoint_close : List Service → ℕ → ℕ → List Service
unfolding entry_free
on_endpoint_close [] owner id = []
on_endpoint_close (e ∷ es) owner id =
    let rest = e ∷ on_endpoint_close es owner id in
    if entry_free e
    then rest
    else if e.owner_pid == owner && e.endpoint_id == id
    then record e { name = [] } ∷ es
    else rest

unfoldable pub cleanup_owner : List Service → ℕ → List Service
cleanup_owner [] owner = []
cleanup_owner (e ∷ es) owner =
    (if e.owner_pid == owner then record e { name = [] } else e) ∷ cleanup_owner es owner
