-- ===== src/Tests/Svc.antt =====
-- Witnesses and runs for the service registry.
use void.Base.{◌≡◌, refl, [], ◌∷◌, arith, ok}
use void.Ipc.Calls.{exit_process}
use void.Ipc.Registry.{lookup, hit}
use void.Kernel.Holds.{Holds}
use void.Kernel.Sound.{Sound}
use void.Svc.{Name, find_name, validate_name, add}
use void.Svc.Calls.{register, check_endpoint}
use void.Svc.Names.{service, kept}
use void.Svc.Publish.{exit-names}
use void.Tests.Demo.{demo_owner, hi}

abbrev lo : Name
lo = 108 ∷ 111 ∷ []

registers_lo : (register lo 0 demo_owner).1 ≡ ok 0
unfolding register validate_name check_endpoint lookup hit find_name add
registers_lo = refl

demo-Sound : Sound demo_owner
unfolding find_name
demo-Sound = record {
  registry_ok = record { entries = omega arith; bounded = omega arith };
  services_ok = record { unique = ((λ e. refl), tt); bounded = omega arith };
  tables_ok = λ p t e. ground arith;
}

exit-names_example :
    service (find_name (exit_process 5 demo_owner).services hi)
    ≡ kept 5 (service (find_name demo_owner.services hi))
exit-names_example = exit-names 5 demo_owner hi demo-Sound
