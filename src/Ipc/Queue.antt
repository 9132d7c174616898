-- ===== src/Ipc/Queue.antt =====
-- The message queue of an endpoint: kernel/ipc/ipc.c, ipc_queue_enqueue and ipc_queue_dequeue,
-- over the structures of kernel/include/ipc/ipc.h and ipc_internal.h.
pub mod Fifo
use void.Base.{
  ℕ, ◌+◌, ◌-◌, ◌%◌, Bool, Option, none, some, List, leb, ◌==◌, if◌then◌else◌, set, get_or, Ret, ok,
  err, nomem, badf,
}

abbrev pub max_queue_depth : ℕ
max_queue_depth = 16

-- `data` holds the `data_len` bytes that were copied in; what lies behind them is never read.
pub record Message : Type 0 where
  pub sender_pid : ℕ
  pub tag : ℕ
  pub data_len : ℕ
  pub bytes : List ℕ

abbrev pub blank : Message
blank = record { sender_pid = 0; tag = 0; data_len = 0; bytes = List.[] }

-- `closed` is the only bit of `flags`, IPC_ENDPOINT_CLOSED.
pub record Endpoint : Type 0 where
  pub owner_pid : ℕ
  pub endpoint_id : ℕ
  pub closed : Bool
  pub queue : List Message
  pub queue_head : ℕ
  pub queue_tail : ℕ
  pub queue_count : ℕ

-- The full queue is reported before the closed endpoint, as in the source.
unfoldable pub enqueue : Endpoint → Message → Ret Endpoint
enqueue ep msg =
    if leb max_queue_depth ep.queue_count
    then err nomem
    else if ep.closed
    then err badf
    else ok (record ep {
      queue = set ep.queue ep.queue_tail msg;
      queue_tail = (ep.queue_tail + 1) % max_queue_depth;
      queue_count = ep.queue_count + 1;
    })

-- `none` is the -1 of an empty queue.
unfoldable pub dequeue : Endpoint → Option (Message × Endpoint)
dequeue ep =
    if ep.queue_count == 0
    then none
    else some (
      get_or ep.queue ep.queue_head blank,
      record ep {
        queue_head = (ep.queue_head + 1) % max_queue_depth;
        queue_count = ep.queue_count - 1;
      },
    )
