-- ===== src/Tests/Ipc.antt =====
-- Witnesses and runs for the IPC calls.
use void.Base.{
  ℕ, ◌≡◌, ◌≢◌, ◌⊎◌, refl, ◌++◌, true, false, some, List, [], ◌∷◌, arith, ok, err, badf, replicate,
  length,
}
use void.Ipc.Calls.{endpoint_create, send, recv, connect, message, copy_data, fresh, exit_process}
use void.Ipc.Delivery.{Names, send_delivers}
use void.Ipc.Ends.{exit_unreachable, create-send_shadowed}
use void.Ipc.Handles.{free_handle, create_table}
use void.Ipc.Queue.{Message, Endpoint, blank}
use void.Ipc.Queue.Fifo.{
  IsValid, Op, put, take, accepted, empty, got, run, run_list, run_refines, contents, push, pop,
}
use void.Ipc.Registry.{lookup, hit, store, register}
use void.Kernel.{Kernel, ensure_table}
use void.Kernel.Holds.{Holds}
use void.Kernel.Sound.{Sound}
use void.System.{Reach, here, next, creates, boot, Reach-Sound}
use void.System
use void.Tests.Demo.{
  demo_access, demo_heap, demo_endpoint, garbage, demo, demo_owner, table_of, entry,
}

demo_endpoint-IsValid : (pid id : ℕ) → IsValid (demo_endpoint pid id)
demo_endpoint-IsValid pid id = omega arith

abbrev hello : Message
hello = message 6 9 1 (7 ∷ [])

abbrev script : List Op
script = put hello ∷ put blank ∷ take ∷ take ∷ take ∷ []

run_refines_example : run (demo_endpoint 5 0) script ≡ run_list false [] script
run_refines_example = run_refines script (demo_endpoint 5 0) (demo_endpoint-IsValid 5 0)

run_script : run_list false [] script ≡ accepted ∷ accepted ∷ got hello ∷ got blank ∷ empty ∷ []
unfolding run_list push pop
run_script = refl

names : Names demo 6 2 5 0
names = record {
  table = table_of 2 5 0;
  running = refl;
  own_table = refl;
  in_range = omega arith;
  names = refl;
}

live : lookup demo.registry 5 0 ≡ some (0, demo_endpoint 5 0)
unfolding lookup hit
live = refl

copied : copy_data demo_access 6 4096 1 demo ≡ (demo, ok (7 ∷ []))
copied = refl

send_delivers_example :
    (ep' : Endpoint) × (send demo_access demo_heap 2 9 4096 1 demo
      ≡ (record demo { registry = store demo.registry 0 ep' }, ok 0))
    × (contents ep' ≡ [] ++ message 6 9 1 (7 ∷ []) ∷ [])
    × (lookup (store demo.registry 0 ep') 5 0 ≡ some (0, ep'))
    × ((o d : ℕ)
        → (o ≢ 5) ⊎ (d ≢ 0)
        → lookup (store demo.registry 0 ep') o d ≡ lookup demo.registry o d)
send_delivers_example =
    send_delivers demo_access demo_heap demo 6 2 5 0 0 9 4096 1 (demo_endpoint 5 0) (7 ∷ []) names
      live (demo_endpoint-IsValid 5 0) refl (omega arith) (omega arith) copied

-- The same kernel with a message waiting.
abbrev waiting : Endpoint
waiting = record (demo_endpoint 5 0) {
  queue = replicate 15 blank ++ hello ∷ [];
  queue_tail = 0;
  queue_count = 1;
}

abbrev waiting_kernel : Kernel (List ℕ)
waiting_kernel = record demo_owner { registry = entry waiting ∷ [] }

exit_unreachable_example :
    (send demo_access demo_heap 2 9 4096 1 (exit_process 5 demo) ≡ (exit_process 5 demo, err badf))
    × (recv demo_access demo_heap 2 0 4096 8 (exit_process 5 demo)
        ≡ (exit_process 5 demo, err badf))
    × (connect demo_heap 5 0 (exit_process 5 demo) ≡ (exit_process 5 demo, err badf))
exit_unreachable_example =
    exit_unreachable demo_access demo_heap demo 6 2 5 0 9 4096 1 0 4096 8 names (omega arith)

-- The slots 0 and 1 are free; handle 2 is in use.
connect_returns : (connect demo_heap 5 0 demo).1 ≡ ok 0
unfolding connect ensure_table lookup hit free_handle create_table
connect_returns = refl

-- Process 5 has closed its endpoint 0 and creates another.
abbrev closed_endpoint : Endpoint
closed_endpoint = record (demo_endpoint 5 0) { closed = true }

abbrev after_close : Kernel (List ℕ)
after_close = record demo_owner {
  registry = entry closed_endpoint ∷ [];
  tables = λ p.
      some (replicate 64 (record { target_pid = 5; target_endpoint_id = 0; allocated = false }));
}

shadow_lookup : lookup after_close.registry 5 0 ≡ some (0, closed_endpoint)
unfolding lookup hit
shadow_lookup = refl

shadow_register :
    register after_close.registry (fresh 5 0 garbage) 5 0
    ≡ ok (entry closed_endpoint ∷ entry (fresh 5 0 garbage) ∷ [])
unfolding register
shadow_register = refl

first_free :
    free_handle
      (replicate 64 (record { target_pid = 5; target_endpoint_id = 0; allocated = false }))
    ≡ some 0
unfolding free_handle
first_free = refl

create-send_shadowed_example :
    (k' : Kernel (List ℕ)) × (endpoint_create demo_heap after_close ≡ (k', ok 0))
    × (send demo_access demo_heap 0 9 4096 1 k' ≡ (k', err badf))
create-send_shadowed_example =
    create-send_shadowed demo_access demo_heap after_close 5 0 0 9 4096 1
      (replicate 64 (record { target_pid = 5; target_endpoint_id = 0; allocated = false }))
      closed_endpoint garbage (entry closed_endpoint ∷ entry (fresh 5 0 garbage) ∷ []) (7 ∷ []) refl
      refl refl first_free refl ((λ e. cc), tt) shadow_lookup refl (omega arith) shadow_register
      (omega arith) refl

garbage_fits : (g : List Message) → demo_heap.endpoint ≡ some g → length g ≡ 16
garbage_fits g e = ground arith

Reach-Sound_example :
    Sound (endpoint_create demo_heap (record (boot demo_access []) { current = some 4 })).0
Reach-Sound_example = Reach-Sound demo_access [] (
    next (next here (System.switches (some 4) (boot demo_access [])))
      (creates demo_heap (record (boot demo_access []) { current = some 4 }) garbage_fits))
