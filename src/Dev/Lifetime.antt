-- ===== src/Dev/Lifetime.antt =====
-- How long an instance of kernel/dev/device.c lives: histories of calls, and what ties the
-- reference counts of the slots to the instances that are open.
use void.Base.{
  ℕ, zero, suc, ◌+◌, ◌<◌, ◌≡◌, refl, ◌≢◌, Bool, false, Option, none, some, List, [], ◌∷◌, arith,
  ◌==◌, if◌then◌else◌, get_elem?, replicate, ok,
}
use void.Base.Strings.{CString}
use void.Dev.{
  Device, Instance, find, init_from, register, unregister, open_device, close_device, max_devices,
}

-- The registry and the instances that are open.
pub record World : Type 0 where
  pub devices : List Device
  pub handles : List Instance

abbrev pub remove {ℓ} : {A : Type ℓ} → ℕ → List A → List A
remove k [] = []
remove zero (x ∷ xs) = xs
remove (suc k) (x ∷ xs) = x ∷ remove k xs

-- One call that succeeds; no slot is opened more than 255 times at once.
pub data Step : World → World → Type 0 where
  registers :
      {w : World} {ds : List Device} (dev : Device)
      → register w.devices dev ≡ ok ds
      → Step w (record w { devices = ds })
  unregisters :
      {w : World} {ds : List Device} (n : CString)
      → unregister w.devices n ≡ ok ds
      → Step w (record w { devices = ds })
  opens :
      {w : World} {ds : List Device} {inst : Instance} {i : ℕ} {d : Device} (n : CString)
      (priv : Option ℕ) (memory : Bool)
      → open_device w.devices n priv memory ≡ some (inst, ds)
      → find w.devices n ≡ some (i, d)
      → d.ref < 255
      → Step w (record { devices = ds; handles = inst ∷ w.handles })
  closes :
      {w : World} {ds : List Device} {inst : Instance} (k : ℕ)
      → get_elem? w.handles k ≡ some inst
      → close_device w.devices inst ≡ ok ds
      → Step w (record { devices = ds; handles = remove k w.handles })

abbrev pub unused : Device
unused = record {
  name = none;
  payload = 0;
  ops = record {
    open_hook = none;
    close_hook = none;
    read_hook = none;
    write_hook = none;
    ioctl_hook = none;
  };
  kind = 0;
  magic = 0;
  ref = 0;
  inuse = false;
}

-- After dev_init.
abbrev pub boot : World
boot = record { devices = init_from 0 (replicate max_devices unused); handles = [] }

pub data Reach : World → Type 0 where
  at_boot : Reach boot
  then_step : {w v : World} → Reach w → Step w v → Reach v

abbrev pub count : ℕ → List Instance → ℕ
count i [] = 0
count i (x ∷ xs) = (if x.idx == i then 1 else 0) + count i xs

pub count-remove :
    (i : ℕ) (hs : List Instance) (k : ℕ) {inst : Instance}
    → get_elem? hs k ≡ some inst
    → count i hs ≡ count i (remove k hs) + (if inst.idx == i then 1 else 0)
count-remove i [] k e = absurd cc
count-remove i (x ∷ xs) zero e = ground arith
count-remove i (x ∷ xs) (suc k) {inst} e = ground (arith, count-remove i xs k {inst = inst} e)

pub count_zero :
    (i : ℕ) (hs : List Instance) (k : ℕ) {inst : Instance}
    → count i hs ≡ 0
    → get_elem? hs k ≡ some inst
    → inst.idx ≢ i
count_zero i [] k z e = absurd cc
count_zero i (x ∷ xs) zero z e = ground arith
count_zero i (x ∷ xs) (suc k) {inst} z e = ground (arith, count_zero i xs k {inst = inst})

pub count_unheld :
    (i : ℕ) (hs : List Instance)
    → ((k : ℕ) (inst : Instance) → get_elem? hs k ≡ some inst → inst.idx ≢ i)
    → count i hs ≡ 0
count_unheld i [] h = refl
count_unheld i (x ∷ xs) h =
    let here = h 0 x refl in let later = count_unheld i xs (λ k. h (suc k)) in ground arith

pub get_elem?-remove :
    (hs : List Instance) (k j : ℕ) {inst : Instance}
    → get_elem? (remove k hs) j ≡ some inst
    → (i : ℕ) × (get_elem? hs i ≡ some inst)
get_elem?-remove [] k j e = absurd cc
get_elem?-remove (x ∷ xs) zero j e = (suc j, e)
get_elem?-remove (x ∷ xs) (suc k) zero e = (zero, e)
get_elem?-remove (x ∷ xs) (suc k) (suc j) e = let r = get_elem?-remove xs k j e in (suc r.0, r.1)
