-- ===== src/Tests/Dev.antt =====
-- Witnesses and runs for the device registry.
use void.Base.{
  ℕ, ◌<◌, ◌≡◌, refl, true, none, some, [], ◌∷◌, arith, length, get_elem?, set, err, busy,
}
use void.Base.Strings.{CString, streq}
use void.Dev.{
  Device, Instance, entry_live, matches, find, fill, init_from, publish, register, unregister,
  dev_lookup, open_device, inst_slot,
}
use void.Dev.Lifetime.{World, Reach, registers, opens, at_boot, then_step, boot, unused, count}
use void.Dev.Handles.{open_stays_valid, open_wraps}

abbrev tty : CString
tty = 116 ∷ 116 ∷ 121 ∷ []

abbrev demo_device : Device
demo_device = record unused {
  name = some tty;
  ops = record {
    open_hook = some 9;
    close_hook = none;
    read_hook = none;
    write_hook = some 8;
    ioctl_hook = none;
  };
}

abbrev slot : ℕ → Device
slot refs = record (fill (record unused { magic = 256 }) demo_device) { ref = refs }

abbrev handle : Instance
handle = record { magic = 0x0871; idx = 0; birth = 256; priv = 77 }

abbrev registered : World
registered = record boot { devices = set boot.devices 0 (slot 0) }

abbrev opened : World
opened = record { devices = set boot.devices 0 (slot 1); handles = handle ∷ [] }

opened-Reach : Reach opened
unfolding init_from register find publish open_device dev_lookup entry_live streq matches
opened-Reach =
    then_step {w = registered} (then_step at_boot (registers demo_device refl))
      (opens {i = 0} {d = slot 0} tty (some 77) true refl refl (omega arith))

open_stays_valid_example :
    (d : Device) × (inst_slot opened.devices handle ≡ some d)
    × (d.ref ≡ count 0 (handle ∷ []))
    × ((n : CString)
        → 0 < length n
        → find opened.devices n ≡ some (0, d)
        → unregister opened.devices n ≡ err busy)
open_stays_valid_example = open_stays_valid {w = opened} {inst = handle} 0 opened-Reach refl

open_wraps_example :
    (inst_slot (slot 0 ∷ []) handle ≡ none) × (get_elem? (slot 0 ∷ []) 0 ≡ some (slot 0))
unfolding find matches streq open_device dev_lookup entry_live
open_wraps_example =
    open_wraps (slot 255 ∷ []) tty (some 77) true {i = 0} {d = slot 255} (omega arith) refl refl
      refl
