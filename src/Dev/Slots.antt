-- ===== src/Dev/Slots.antt =====
-- The slot that each operation of the device registry (kernel/dev/device.c) changes.
use void.Base.{
  ℕ, zero, suc, ◌+◌, ◌-◌, ◌%◌, ◌≡◌, refl, ◌≢◌, Bool, true, false, Option, none, some, List, [], ◌∷◌,
  arith, length, get_elem?, set, ok, Ret-cases, Option-cases, Bool-cases, inl, inr, ◌<◌,
}
use void.Base.Strings.{CString}
use void.Dev.{
  Device, Instance, entry_live, matches, find, fill, publish, present, register, unregister,
  dev_lookup, open_device, inst_slot, close_device, instance_magic, max_devices,
}

pub find_hit :
    (ds : List Device) (n : CString) {i : ℕ} {d : Device}
    → find ds n ≡ some (i, d)
    → (get_elem? ds i ≡ some d) × (matches n d ≡ true)
unfolding find
find_hit [] n e = absurd cc
find_hit (x ∷ ds) n {i = zero} e = elim (Option-cases (find ds n)) [
  | inl gone ↦ ground arith
  | inr ((j, t), e') ↦ ground arith
]
find_hit (x ∷ ds) n {i = suc i} {d} e = elim (Option-cases (find ds n)) [
  | inl gone ↦ ground arith
  | inr ((j, t), e') ↦ ground (arith, find_hit ds n {i = i} {d = d})
]

-- A device is filled into one slot that was not in use.
pub record Filled (ds : List Device) (dev : Device) (ds' : List Device) : Type 0 where
  pub at : ℕ
  pub slot : Device
  pub was : get_elem? ds at ≡ some slot
  pub unused : slot.inuse ≡ false
  pub now : ds' ≡ set ds at (fill slot dev)

pub publish-Filled :
    (ds : List Device) (dev : Device) {ds' : List Device}
    → publish ds dev ≡ ok ds'
    → Filled ds dev ds'
unfolding publish
publish-Filled [] dev e = absurd cc
publish-Filled (d ∷ ds) dev {ds'} e = elim (Bool-cases d.inuse) [
  | inr unused ↦ record { at = 0; slot = d; was = refl; unused = unused; now = ground arith }
  | inl used ↦ elim (Ret-cases (publish ds dev)) [
    | inr (x, e') ↦ absurd (ground arith)
    | inl (es, e') ↦
        let f = publish-Filled ds dev e' in
        record {
          at = suc f.at;
          slot = f.slot;
          was = f.was;
          unused = f.unused;
          now = ground (arith, f.now);
        }
  ]
]

pub register-Filled :
    (ds : List Device) (dev : Device) {ds' : List Device}
    → register ds dev ≡ ok ds'
    → (n : CString) × (dev.name ≡ some n)
      × (present dev.ops.open_hook ≡ true)
      × (0 < length n)
      × (find ds n ≡ none)
      × Filled ds dev ds'
unfolding register
register-Filled ds dev {ds'} e = elim (Option-cases dev.name) [
  | inl unnamed ↦ absurd (ground arith)
  | inr (n, named) ↦ elim (Option-cases (find ds n)) [
    | inl gone ↦ (n, named, ground arith, ground arith, gone, publish-Filled ds dev (ground arith))
    | inr (hit, e') ↦ absurd (ground arith)
  ]
]

-- A slot that lost its name and its device.
abbrev pub blanked : Device → Device
blanked d = record d { name = none; payload = 0; inuse = false; ref = 0 }

pub record Blanked (ds : List Device) (n : CString) (ds' : List Device) : Type 0 where
  pub at : ℕ
  pub slot : Device
  pub found : find ds n ≡ some (at, slot)
  pub idle : slot.ref ≡ 0
  pub now : ds' ≡ set ds at (blanked slot)

pub unregister-Blanked :
    (ds : List Device) (n : CString) {ds' : List Device}
    → unregister ds n ≡ ok ds'
    → Blanked ds n ds'
unfolding unregister
unregister-Blanked ds n {ds'} e = elim (Option-cases (find ds n)) [
  | inl gone ↦ absurd (ground arith)
  | inr ((i, d), hit) ↦ record {
    at = i;
    slot = d;
    found = hit;
    idle = ground arith;
    now = ground arith;
  }
]

-- A slot gains a reference and an instance is made for it.
pub record Opened (ds : List Device) (n : CString) (inst : Instance) (ds' : List Device)
    : Type 0 where
  pub at : ℕ
  pub slot : Device
  pub found : find ds n ≡ some (at, slot)
  pub live : entry_live slot ≡ true
  pub magic_ok : inst.magic ≡ instance_magic
  pub index_ok : inst.idx ≡ at % 256
  pub birth_ok : inst.birth ≡ slot.magic
  pub now : ds' ≡ set ds at (record slot { ref = (slot.ref + 1) % 256 })

pub open_device-Opened :
    (ds : List Device) (n : CString) (priv : Option ℕ) (memory : Bool) {inst : Instance}
    {ds' : List Device}
    → open_device ds n priv memory ≡ some (inst, ds')
    → Opened ds n inst ds'
unfolding open_device dev_lookup
open_device-Opened ds n priv memory e = elim (Option-cases (find ds n)) [
  | inl gone ↦ absurd (ground arith)
  | inr ((i, d), hit) ↦ record {
    at = i;
    slot = d;
    found = hit;
    live = ground arith;
    magic_ok = ground arith;
    index_ok = ground arith;
    birth_ok = ground arith;
    now = ground arith;
  }
]

-- The instance is that of a slot in use which has references.
pub record Pinned (ds : List Device) (inst : Instance) (d : Device) : Type 0 where
  pub at_slot : get_elem? ds inst.idx ≡ some d
  pub live : entry_live d ≡ true
  pub magic_ok : inst.magic ≡ instance_magic
  pub below : inst.idx < max_devices
  pub birth_ok : inst.birth ≡ d.magic

pub inst_slot-Pinned :
    (ds : List Device) (inst : Instance) {d : Device}
    → inst_slot ds inst ≡ some d
    → Pinned ds inst d × (d.ref ≢ 0)
unfolding inst_slot
inst_slot-Pinned ds inst {d} e = elim (Option-cases (get_elem? ds inst.idx)) [
  | inl out ↦ absurd (ground arith)
  | inr (s, at) ↦ (
    record {
      at_slot = ground arith;
      live = ground arith;
      magic_ok = ground arith;
      below = ground arith;
      birth_ok = ground arith;
    },
    ground arith,
  )
]

pub Pinned-inst_slot :
    (ds : List Device) (inst : Instance) {d : Device}
    → Pinned ds inst d
    → d.ref ≢ 0
    → inst_slot ds inst ≡ some d
unfolding inst_slot
Pinned-inst_slot ds inst {d} p ne =
    ground (arith, p.at_slot, p.live, p.magic_ok, p.below, p.birth_ok)

pub close_device-ok :
    (ds : List Device) (inst : Instance) {ds' : List Device}
    → close_device ds inst ≡ ok ds'
    → (d : Device) × (inst_slot ds inst ≡ some d)
      × (ds' ≡ set ds inst.idx (record d { ref = d.ref - 1 }))
unfolding close_device
close_device-ok ds inst e = elim (Option-cases (inst_slot ds inst)) [
  | inl out ↦ absurd (ground arith)
  | inr (d, at) ↦ (d, at, ground arith)
]
