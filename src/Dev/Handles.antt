-- ===== src/Dev/Handles.antt =====
-- What the device layer (kernel/dev/device.c) promises to whoever holds an open instance.
use void.Base.{
  ℕ, zero, suc, ◌+◌, ◌-◌, ◌%◌, ◌≤◌, ◌<◌, ◌≡◌, refl, sym, ap, ◌∙◌, ◌≢◌, Bool, Option, none, some,
  List, [], ◌∷◌, arith, length, get_elem?, set, replicate, ok, err, busy, Option-cases, inl, inr,
  get_elem?-set_self, length-replicate,
}
use void.Base.Strings.{CString}
use void.Dev.{
  Device, Instance, entry_live, find, init_from, unregister, open_device, inst_slot, close_device,
  max_devices, instance_magic,
}
use void.Dev.Slots.{
  Pinned, register-Filled, unregister-Blanked, open_device-Opened, inst_slot-Pinned,
  Pinned-inst_slot, find_hit,
}
use void.Dev.Lifetime.{
  World, Step, registers, unregisters, opens, closes, Reach, at_boot, then_step, boot, unused,
  count, count_zero,
}
use void.Dev.Balance.{
  Balanced, bound_of, registers-Balanced, unregisters-Balanced, opens-Balanced, closes-Balanced,
}

length-init : (i : ℕ) (ds : List Device) → length (init_from i ds) ≡ length ds
unfolding init_from
length-init i [] = refl
length-init i (d ∷ ds) = ap suc (length-init (i + 1) ds)

init_ref :
    (i n j : ℕ) {d : Device} → get_elem? (init_from i (replicate n unused)) j ≡ some d → d.ref ≡ 0
unfolding init_from
init_ref i zero j e = absurd cc
init_ref i (suc n) zero e = ground arith
init_ref i (suc n) (suc j) e = init_ref (i + 1) n j e

boot-Balanced : Balanced boot
boot-Balanced = record {
  bounded =
      omega
        (arith, length-init 0 (replicate max_devices unused), length-replicate max_devices unused);
  pinned = λ k held. absurd cc;
  counted = λ i e. init_ref 0 max_devices i e;
}

Step-Balanced : {w v : World} → Step w v → Balanced w → Balanced v
Step-Balanced (registers {w} dev e) b =
    let (n, named, hook, nonempty, fresh, f) = register-Filled w.devices dev e in
    registers-Balanced w dev b f
Step-Balanced (unregisters {w} n e) b =
    unregisters-Balanced w n b (unregister-Blanked w.devices n e)
Step-Balanced (opens {w} n priv memory e hit small) b =
    let o = open_device-Opened w.devices n priv memory e in
    opens-Balanced w n b o (ground (arith, o.found))
Step-Balanced (closes {w} k held e) b = closes-Balanced w k b held e

-- In every history of calls in which no slot has more than 255 open instances, the reference count
-- of each slot is the number of its open instances, and each is pinned to a live slot.
pub Reach-Balanced : {w : World} → Reach w → Balanced w
Reach-Balanced at_boot = boot-Balanced
Reach-Balanced (then_step r s) = Step-Balanced s (Reach-Balanced r)

-- In every history of calls in which no slot has more than 255 open instances, an instance that is
-- open and not closed passes the layer's check, the count of its slot is the number of the slot's
-- open instances, and the name of its slot cannot be unregistered.
pub open_stays_valid :
    {w : World} {inst : Instance} (k : ℕ)
    → Reach w
    → get_elem? w.handles k ≡ some inst
    → (d : Device) × (inst_slot w.devices inst ≡ some d)
      × (d.ref ≡ count inst.idx w.handles)
      × ((n : CString)
          → 0 < length n
          → find w.devices n ≡ some (inst.idx, d)
          → unregister w.devices n ≡ err busy)
unfolding unregister
open_stays_valid {w} {inst} k r held =
    let b = Reach-Balanced r in
    let (d, p) = b.pinned k held in
    let counts = b.counted inst.idx p.at_slot in
    let held_once : d.ref ≢ 0 = λ z. count_zero inst.idx w.handles k (sym counts ∙ z) held refl in
    (d, Pinned-inst_slot w.devices inst p held_once, counts, λ n nonempty hit. ground arith)

bump : Device → Device
bump d = record d { ref = (d.ref + 1) % 256 }

same_ref : (d : Device) → d.ref < 255 → record (bump d) { ref = (bump d).ref - 1 } ≡ d
unfolding bump
same_ref d small = ap (λ r. record d { ref = r }) (omega arith)

no_slot :
    (ds : List Device) (inst : Instance) {d : Device}
    → get_elem? ds inst.idx ≡ some d
    → d.ref ≡ 0
    → inst_slot ds inst ≡ none
no_slot ds inst at zero_ref = elim (Option-cases (inst_slot ds inst)) [
  | inl e ↦ e
  | inr (s, e) ↦ let p = inst_slot-Pinned ds inst e in absurd (ground (arith, p.0.at_slot, p.1))
]

restore :
    (ds : List Device) (i : ℕ) (d' : Device) {d x : Device}
    → get_elem? ds i ≡ some d
    → x ≡ d
    → set (set ds i d') i x ≡ ds
restore [] i d' was e = refl
restore (y ∷ ds) zero d' was e = cc
restore (y ∷ ds) (suc i) d' was e = ap (λ r. y ∷ r) (restore ds i d' was e)

close_device-at :
    (ds : List Device) (inst : Instance) {d : Device}
    → inst.magic ≡ instance_magic
    → inst_slot ds inst ≡ some d
    → close_device ds inst ≡ ok (set ds inst.idx (record d { ref = d.ref - 1 }))
unfolding close_device
close_device-at ds inst m e = ground arith

-- Opening a name and closing the new instance leaves the registry as it was, when fewer than 255
-- instances of the slot are open.
pub close_device-open_device :
    (ds : List Device) (n : CString) (priv : Option ℕ) (memory : Bool) {i : ℕ} {d : Device}
    {inst : Instance} {ds' : List Device}
    → length ds ≤ max_devices
    → find ds n ≡ some (i, d)
    → d.ref < 255
    → open_device ds n priv memory ≡ some (inst, ds')
    → close_device ds' inst ≡ ok ds
unfolding bump entry_live
close_device-open_device ds n priv memory {i} {d} {inst} {ds'} len hit small e =
    let o = open_device-Opened ds n priv memory e in
    let same : (o.at ≡ i) × (o.slot ≡ d) = ground (arith, o.found) in
    let was = (find_hit ds n hit).0 in
    let own : inst.idx ≡ i = omega (arith, o.index_ok, same.0, bound_of ds i was) in
    let p : Pinned (set ds i (bump d)) inst (bump d) = record {
      at_slot = rw own (get_elem?-set_self ds i (bump d) (bound_of ds i was));
      live = ground (arith, o.live, same.1);
      magic_ok = o.magic_ok;
      below = omega (arith, own, bound_of ds i was);
      birth_ok = ground (arith, o.birth_ok, same.1);
    } in
    let valid = Pinned-inst_slot (set ds i (bump d)) inst p (ground arith) in
    rw (o.now, same.0, same.1)
      (close_device-at (set ds i (bump d)) inst o.magic_ok valid
        ∙ rw own (ap ok (restore ds i (bump d) was (same_ref d small))))

-- The reference count is a byte: opening a slot that has 255 open instances sets it to 0, the new
-- instance is refused at once, and the name can be unregistered under all of them.
pub open_wraps :
    (ds : List Device) (n : CString) (priv : Option ℕ) (memory : Bool) {i : ℕ} {d : Device}
    {inst : Instance} {ds' : List Device}
    → length ds ≤ max_devices
    → find ds n ≡ some (i, d)
    → d.ref ≡ 255
    → open_device ds n priv memory ≡ some (inst, ds')
    → (inst_slot ds' inst ≡ none) × (get_elem? ds' i ≡ some (record d { ref = 0 }))
open_wraps ds n priv memory {i} {d} {inst} {ds'} len hit full e =
    let o = open_device-Opened ds n priv memory e in
    let same : (o.at ≡ i) × (o.slot ≡ d) = ground (arith, o.found) in
    let was = (find_hit ds n hit).0 in
    let own : inst.idx ≡ i = omega (arith, o.index_ok, same.0, bound_of ds i was) in
    let now : ds' ≡ set ds i (record d { ref = 0 }) = o.now ∙ rw (same.0, same.1, full) in
    let slot = get_elem?-set_self ds i (record d { ref = 0 }) (bound_of ds i was) in
    (
      rw now (
          no_slot (set ds i (record d { ref = 0 })) inst {d = record d { ref = 0 }} (rw own slot)
            refl),
      rw now slot,
    )
