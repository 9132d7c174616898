-- ===== src/Svc/Sound.antt =====
-- Every service call of kernel/svc/svc.c keeps the kernel's invariant, whatever it returns.
use void.Base.{ℕ, ◌≡◌, none, List, arith, ok, ◌==◌, true}
use void.Ipc.Handles.{free_handle, target}
use void.Kernel.{Kernel, Heap}
use void.Kernel.Holds.{Holds, returns, bind, some_or-Holds, try-Holds, require-Holds, Any}
use void.Kernel.Rules.{ensure_table-Holds, set_handle-Sound, services-Sound}
use void.Kernel.Sound.{Sound, ServicesOk}
use void.Svc.{Name, Service, validate_name, find_name, add, free_at}
use void.Svc.Calls.{register, unregister, lookup_service, check_endpoint, endpoint_of, absent}
use void.Svc.Names.{service}
use void.Svc.Unique.{Unique-add, Unique-free, length-add, length-free}

abbrev pub new_service : Name → ℕ → ℕ → Service
new_service name pid id = record { name = name; owner_pid = pid; endpoint_id = id }

pub absent-service :
    (es : List Service) (name : Name)
    → absent (find_name es name) ≡ true
    → service (find_name es name) ≡ none
absent-service es name h = ground arith

add-ServicesOk :
    (es : List Service) (new : Service) {es' : List Service}
    → ServicesOk es
    → service (find_name es new.name) ≡ none
    → add es new ≡ ok es'
    → ServicesOk es'
unfolding add
add-ServicesOk es new o gone e = record {
  unique = Unique-add es 0 new gone o.unique e;
  bounded = omega (arith, length-add es 0 new (omega (arith, o.bounded)) e);
}

module _ {M : Type 0} where
  pub register-Holds :
      (name : Name) (handle : ℕ) (k : Kernel M) → Sound k → Holds Sound Any (register name handle k)
  unfolding register
  register-Holds name handle k s = bind (some_or-Holds k.current _ k s) λ pid k1 s1 _.
      bind (try-Holds (validate_name name) k1 s1) λ _ k2 s2 _.
        bind (require-Holds (check_endpoint (k2.tables pid) k2.registry pid handle) _ k2 s2)
          λ _ k3 s3 _.
            bind (require-Holds (absent (find_name k3.services name)) _ k3 s3) λ _ k4 s4 free.
              bind
                (try-Holds
                  (add k3.services (new_service name pid (endpoint_of (k2.tables pid) handle))) k4
                  s4)
                λ es k5 s5 added.
                  returns
                    (services-Sound k5 es
                      (add-ServicesOk k3.services
                        (new_service name pid (endpoint_of (k2.tables pid) handle)) s3.services_ok
                        (absent-service k3.services name free.0) added.0)
                      s5)
                    tt

  pub unregister-Holds :
      (name : Name) (handle : ℕ) (k : Kernel M)
      → Sound k
      → Holds Sound Any (unregister name handle k)
  unfolding unregister
  unregister-Holds name handle k s = bind (some_or-Holds k.current _ k s) λ pid k1 s1 _.
      bind (try-Holds (validate_name name) k1 s1) λ _ k2 s2 _.
        bind (require-Holds (check_endpoint (k2.tables pid) k2.registry pid handle) _ k2 s2)
          λ _ k3 s3 _. bind (some_or-Holds (find_name k3.services name) _ k3 s3) λ found k4 s4 _.
            bind (require-Holds (found.1.owner_pid == pid) _ k4 s4) λ _ k5 s5 _.
              returns
                (services-Sound k5 (free_at k3.services found.0)
                  (record {
                    unique = Unique-free k3.services found.0 s3.services_ok.unique;
                    bounded =
                        omega (arith, s3.services_ok.bounded, length-free k3.services found.0);
                  })
                  s5)
                tt

  pub lookup_service-Holds :
      (heap : Heap) (name : Name) (k : Kernel M)
      → Sound k
      → Holds Sound Any (lookup_service heap name k)
  unfolding lookup_service
  lookup_service-Holds heap name k s = bind (some_or-Holds k.current _ k s) λ pid k1 s1 _.
      bind (try-Holds (validate_name name) k1 s1) λ _ k2 s2 _.
        bind (some_or-Holds (find_name k2.services name) _ k2 s2) λ found k3 s3 _.
          bind (ensure_table-Holds heap pid k3 s3) λ t k4 s4 len.
            bind (some_or-Holds (free_handle t) _ k4 s4) λ handle k5 s5 _.
              returns
                (set_handle-Sound k5 pid t handle (target found.1.owner_pid found.1.endpoint_id) len
                  s5)
                tt
