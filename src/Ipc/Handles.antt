-- ===== src/Ipc/Handles.antt =====
-- The handle table of a process: kernel/ipc/ipc.c, lines 100 to 126, and the slot searches in the
-- system calls.
use void.Base.{
  ℕ, suc, Bool, true, false, Option, none, some, List, [], ◌∷◌, if◌then◌else◌, get_or, replicate,
}

abbrev pub max_handles : ℕ
max_handles = 64

-- `allocated` is the only bit of `flags`, IPC_HANDLE_ALLOCATED.
pub record Handle : Type 0 where
  pub target_pid : ℕ
  pub target_endpoint_id : ℕ
  pub allocated : Bool

abbrev pub Table : Type 0
Table = List Handle

abbrev pub unused : Handle
unused = record { target_pid = 0; target_endpoint_id = 0; allocated = false }

abbrev pub target : ℕ → ℕ → Handle
target pid id = record { target_pid = pid; target_endpoint_id = id; allocated = true }

unfoldable pub create_table : Table
create_table = replicate max_handles unused

-- The index of the first handle that is not allocated.
unfoldable pub free_handle : Table → Option ℕ
free_handle [] = none
free_handle (h ∷ hs) =
    let rest = free_handle hs in
    if h.allocated then elim rest [ none ↦ none | some i ↦ some (suc i) ] else some 0

abbrev pub handle_at : Table → ℕ → Handle
handle_at t i = get_or t i unused
