-- ===== src/Tests/Demo.antt =====
-- A kernel of two processes over a memory that every pointer may read and write.
use void.Base.{
  ℕ, ◌≡◌, true, false, none, some, List, [], ◌∷◌, replicate, length, length-replicate, set, arith,
  if◌then◌else◌, ◌==◌,
}
use void.Ipc.Handles.{Table, target}
use void.Ipc.Queue.{Message, Endpoint, blank}
use void.Ipc.Registry.{Entry}
use void.Kernel.{Kernel, Heap}
use void.Kernel.Access.{UserAccess}
use void.Svc.{Service}

pub length-sevens :
    (m : List ℕ) (pid p n : ℕ) (xs : List ℕ) → some (replicate n 7) ≡ some xs → length xs ≡ n
length-sevens m pid p n xs e = ground (arith, length-replicate {A = ℕ} n 7)

-- Reading gives sevens, and what is written last is kept.
abbrev pub demo_access : UserAccess
demo_access = record {
  Mem = List ℕ;
  range_ok = λ m pid p n w. true;
  copy_from = λ m pid p n. some (replicate n 7);
  copy_to = λ m pid p xs. some xs;
  length-copy_from = length-sevens;
}

abbrev pub garbage : List Message
garbage = replicate 16 blank

abbrev pub demo_heap : Heap
demo_heap = record { table = true; endpoint = some garbage }

abbrev pub demo_endpoint : ℕ → ℕ → Endpoint
demo_endpoint pid id = record {
  owner_pid = pid;
  endpoint_id = id;
  closed = false;
  queue = garbage;
  queue_head = 15;
  queue_tail = 15;
  queue_count = 0;
}

abbrev pub entry : Endpoint → Entry
entry ep = record { endpoint = some ep; owner_pid = ep.owner_pid; endpoint_id = ep.endpoint_id }

abbrev pub table_of : ℕ → ℕ → ℕ → Table
table_of handle pid id =
    set (replicate 64 (record { target_pid = 0; target_endpoint_id = 0; allocated = false })) handle
      (target pid id)

-- Process 5 owns endpoint 0 and runs as the service "hi"; process 6 runs and has handle 2 on it.
abbrev pub hi : List ℕ
hi = 104 ∷ 105 ∷ []

abbrev pub hi_service : Service
hi_service = record { name = hi; owner_pid = 5; endpoint_id = 0 }

abbrev pub demo : Kernel (List ℕ)
demo = record {
  current = some 6;
  tables =
      λ p. if p == 5 then some (table_of 0 5 0) else if p == 6 then some (table_of 2 5 0) else none;
  registry = entry (demo_endpoint 5 0) ∷ [];
  services = hi_service ∷ [];
  memory = [];
}

-- The same kernel while process 5 runs.
abbrev pub demo_owner : Kernel (List ℕ)
demo_owner = record demo { current = some 5 }
