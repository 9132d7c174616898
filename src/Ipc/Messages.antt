-- ===== src/Ipc/Messages.antt =====
-- The kernel's invariant under sys_ipc_send and sys_ipc_recv of kernel/ipc/ipc.c.
use void.Base.{
  ℕ, ◌≡◌, refl, some, List, arith, ok, ltb, leb, Option-cases, inl, inr, Bool-cases, ◌∙◌, true,
  ◌==◌, min, take, ◌||◌, false, Bool, if◌then◌else◌,
}
use void.Ipc.Queue.{Endpoint, Message, enqueue, dequeue}
use void.Ipc.Queue.Fifo
use void.Ipc.Queue.Fifo.{enqueue-IsValid, dequeue-IsValid}
use void.Ipc.Registry.{lookup, store}
use void.Ipc.Handles.{Handle, max_handles}
use void.Ipc.Calls.{
  send, recv, take_message, deliver, copy_data, message, write_user, u32_bytes, max_data,
}
use void.Kernel.{Kernel, Heap, Cmd, pure}
use void.Kernel.Access.{UserAccess}
use void.Kernel.Holds.{
  Holds, returns, bind, mono, SameState, some_or-Holds, try-Holds, require-Holds, Any,
}
use void.Kernel.Rules.{ensure_table-Holds, registry-Sound}
use void.Kernel.Sound.{Sound}
use void.Ipc.Sound.{store-RegistryOk, checked_handle-Holds}

enqueue_key :
    (ep : Endpoint) (m : Message) {ep' : Endpoint}
    → enqueue ep m ≡ ok ep'
    → (ep'.owner_pid ≡ ep.owner_pid) × (ep'.endpoint_id ≡ ep.endpoint_id)
unfolding enqueue
enqueue_key ep m e = ground arith

dequeue_key :
    (ep : Endpoint) {m : Message} {ep' : Endpoint}
    → dequeue ep ≡ some (m, ep')
    → (ep'.owner_pid ≡ ep.owner_pid) × (ep'.endpoint_id ≡ ep.endpoint_id)
unfolding dequeue
dequeue_key ep e = ground arith

unless :
    {M : Type 0} (b : Bool) (m : Cmd M (Unit {0})) (k : Kernel M)
    → Sound k
    → Holds Sound Any (m k)
    → Holds Sound Any ((if b then pure tt else m) k)
unless true m k s h = returns s tt
unless false m k s h = h

module _ (u : UserAccess) where
  copy_data-Holds :
      (pid src len : ℕ) (k : Kernel u.Mem)
      → Sound k
      → Holds Sound (SameState k) (copy_data u pid src len k)
  copy_data-Holds pid src len k s = elim (Bool-cases (len == 0)) [
    | inl e ↦ rw e (returns s refl)
    | inr ne ↦ rw ne (
        bind (require-Holds (u.range_ok k.memory pid src len false) _ k s) λ _ k1 s1 same1.
          mono (some_or-Holds (u.copy_from k.memory pid src len) _ k1 s1)
            λ a k2 got. got.1 ∙ same1.1)
  ]

  memory-Sound : (k : Kernel u.Mem) (m : u.Mem) → Sound k → Sound (record k { memory = m })
  memory-Sound k m s = record {
    registry_ok = s.registry_ok;
    services_ok = s.services_ok;
    tables_ok = s.tables_ok;
  }

  write_user-Holds :
      (pid dst : ℕ) (bytes : List ℕ) (len : ℕ) (k : Kernel u.Mem)
      → Sound k
      → Holds Sound Any (write_user u pid dst bytes len k)
  write_user-Holds pid dst bytes len k s =
      bind (require-Holds (u.range_ok k.memory pid dst len true) _ k s) λ _ k1 s1 _.
        bind (some_or-Holds (u.copy_to k.memory pid dst bytes) _ k1 s1)
          λ m k2 s2 _. returns (memory-Sound k2 m s2) tt

  put_endpoint-Sound :
      (k : Kernel u.Mem) (owner id i : ℕ) (ep new : Endpoint)
      → lookup k.registry owner id ≡ some (i, ep)
      → (Fifo.IsValid ep → Fifo.IsValid new)
      → new.owner_pid ≡ ep.owner_pid
      → new.endpoint_id ≡ ep.endpoint_id
      → Sound k
      → Sound (record k { registry = store k.registry i new })
  put_endpoint-Sound k owner id i ep new e valid same_pid same_id s =
      registry-Sound k (store k.registry i new)
        (store-RegistryOk k.registry owner id {i = i} {ep = ep} new s.registry_ok e valid same_pid
          same_id)
        s

  pub send-Holds :
      (heap : Heap) (dest tag ptr len : ℕ) (k : Kernel u.Mem)
      → Sound k
      → Holds Sound Any (send u heap dest tag ptr len k)
  unfolding send
  send-Holds heap dest tag ptr len k s = bind (some_or-Holds k.current _ k s) λ pid k1 s1 _.
      bind (ensure_table-Holds heap pid k1 s1) λ t k2 s2 _.
        bind (require-Holds (ltb dest max_handles) _ k2 s2) λ _ k3 s3 _.
          bind (require-Holds (leb len max_data) _ k3 s3) λ _ k4 s4 _.
            bind (checked_handle-Holds t dest k4 s4) λ h k5 s5 _.
              bind (some_or-Holds (lookup k5.registry h.target_pid h.target_endpoint_id) _ k5 s5)
                λ (i, ep) k6 s6 got. bind (copy_data-Holds pid ptr len k6 s6) λ bytes k7 s7 same7.
                  bind (try-Holds (enqueue ep (message pid tag len bytes)) k7 s7) λ ep' k8 s8 done.
                    returns
                      (put_endpoint-Sound k8 h.target_pid h.target_endpoint_id i ep ep'
                        (rw (done.1, same7, got.1) got.0)
                        (λ v. enqueue-IsValid ep (message pid tag len bytes) v done.0)
                        (enqueue_key ep (message pid tag len bytes) done.0).0
                        (enqueue_key ep (message pid tag len bytes) done.0).1 s8)
                      tt

  deliver-Holds :
      (pid : ℕ) (msg : Message) (tag_out data_out max_len : ℕ) (k : Kernel u.Mem)
      → Sound k
      → Holds Sound Any (deliver u pid msg tag_out data_out max_len k)
  unfolding deliver
  deliver-Holds pid msg tag_out data_out max_len k s =
      bind
        (unless (tag_out == 0) (write_user u pid tag_out (u32_bytes msg.tag) 4) k s
          (write_user-Holds pid tag_out (u32_bytes msg.tag) 4 k s))
        λ _ k1 s1 _.
          bind
            (unless (min msg.data_len max_len == 0 || data_out == 0)
              (write_user u pid data_out (take (min msg.data_len max_len) msg.bytes)
                (min msg.data_len max_len))
              k1 s1
              (write_user-Holds pid data_out (take (min msg.data_len max_len) msg.bytes)
                (min msg.data_len max_len) k1 s1))
            λ _ k2 s2 _. returns s2 tt

  pub recv-Holds :
      (heap : Heap) (handle tag_out data_out max_len : ℕ) (k : Kernel u.Mem)
      → Sound k
      → Holds Sound Any (recv u heap handle tag_out data_out max_len k)
  unfolding recv take_message
  recv-Holds heap handle tag_out data_out max_len k s =
      bind (some_or-Holds k.current _ k s) λ pid k1 s1 _.
        bind (ensure_table-Holds heap pid k1 s1) λ t k2 s2 _.
          bind (require-Holds (ltb handle max_handles) _ k2 s2) λ _ k3 s3 _.
            bind (checked_handle-Holds t handle k3 s3) λ h k4 s4 _.
              bind (some_or-Holds (lookup k4.registry h.target_pid h.target_endpoint_id) _ k4 s4)
                λ (i, ep) k5 s5 got. received pid h i ep k5 s5 (rw got.1 got.0)
    where
      received :
          (pid : ℕ) (h : Handle) (i : ℕ) (ep : Endpoint) (k : Kernel u.Mem)
          → Sound k
          → lookup k.registry h.target_pid h.target_endpoint_id ≡ some (i, ep)
          → Holds Sound Any (take_message u pid (i, ep) tag_out data_out max_len k)
      received pid h i ep k s e = elim (Option-cases (dequeue ep)) [
        | inl none_left ↦ rw (none_left, take_message) (returns s tt)
        | inr ((msg, ep'), got) ↦
            rw (got, take_message)
              (deliver-Holds pid msg tag_out data_out max_len
                (record k { registry = store k.registry i ep' })
                (put_endpoint-Sound k h.target_pid h.target_endpoint_id i ep ep' e
                  (λ v. dequeue-IsValid ep v got) (dequeue_key ep got).0 (dequeue_key ep got).1 s))
      ]
