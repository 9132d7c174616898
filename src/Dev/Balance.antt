-- ===== src/Dev/Balance.antt =====
-- The reference counts of the device registry (kernel/dev/device.c) and the open instances.
use void.Base.{
  ℕ, zero, suc, ◌+◌, ◌-◌, ◌%◌, ◌≤◌, ◌<◌, ◌≡◌, refl, sym, ◌∙◌, ◌≢◌, true, false, some, List, [], ◌∷◌,
  arith, ◌==◌, length, get_elem?, set, ok, Bool-cases, inl, inr, get_elem?-set_self,
  get_elem?-set_ne, length-set, ◌⊎◌,
}
use void.Base.Strings.{CString}
use void.Dev.{Device, Instance, entry_live, fill, close_device, max_devices}
use void.Dev.Slots.{
  Pinned, Filled, Blanked, Opened, blanked, inst_slot-Pinned, close_device-ok, find_hit,
}
use void.Dev.Lifetime.{
  World, remove, count, count-remove, count_zero, count_unheld, get_elem?-remove,
}

-- The reference count of a slot is the number of its open instances, and each open instance is of a
-- live slot of its birth.
pub record Balanced (w : World) : Type 0 where
  pub bounded : length w.devices ≤ max_devices
  pub pinned :
      (k : ℕ) {inst : Instance}
      → get_elem? w.handles k ≡ some inst
      → (d : Device) × Pinned w.devices inst d
  pub counted : {d : Device} (i : ℕ) → get_elem? w.devices i ≡ some d → d.ref ≡ count i w.handles

pub bound_of : (ds : List Device) (i : ℕ) {d : Device} → get_elem? ds i ≡ some d → i < length ds
bound_of [] i e = absurd cc
bound_of (x ∷ ds) zero e = omega arith
bound_of (x ∷ ds) (suc i) e = omega (arith, bound_of ds i e)

set_slot :
    (ds : List Device) (i : ℕ) (d' : Device) (j : ℕ) {d x : Device}
    → get_elem? ds i ≡ some d
    → get_elem? (set ds i d') j ≡ some x
    → ((j ≡ i) × (x ≡ d')) ⊎ ((j ≢ i) × (get_elem? ds j ≡ some x))
set_slot ds i d' j was e = elim (Bool-cases (j == i)) [
  | inl same ↦
      let at : j ≡ i = ground arith in
      inl (at, ground (arith, get_elem?-set_self ds i d' (bound_of ds i was)))
  | inr ne ↦
      let differ : i ≢ j = ground arith in
      inr (ground arith, sym (get_elem?-set_ne ds d' differ) ∙ e)
]

Pinned-set :
    (ds : List Device) (i : ℕ) {d : Device} (d' : Device) {inst : Instance} {s : Device}
    → get_elem? ds i ≡ some d
    → (entry_live d ≡ true → entry_live d' ≡ true)
    → d'.magic ≡ d.magic
    → Pinned ds inst s
    → (s' : Device) × Pinned (set ds i d') inst s'
Pinned-set ds i {d} d' {inst} {s} was lives magic p = elim (Bool-cases (i == inst.idx)) [
  | inr ne ↦
      let differ : i ≢ inst.idx = ground arith in
      (
        s,
        record {
          at_slot = get_elem?-set_ne ds d' differ ∙ p.at_slot;
          live = p.live;
          magic_ok = p.magic_ok;
          below = p.below;
          birth_ok = p.birth_ok;
        },
      )
  | inl same ↦
      let at : inst.idx ≡ i = ground arith in
      let known : s ≡ d = ground (arith, p.at_slot) in
      (
        d',
        record {
          at_slot = rw at (get_elem?-set_self ds i d' (bound_of ds i was));
          live = ground (arith, p.live);
          magic_ok = p.magic_ok;
          below = p.below;
          birth_ok = ground (arith, p.birth_ok);
        },
      )
]

Pinned-set_ne :
    (ds : List Device) (i : ℕ) (d' : Device) {inst : Instance} {s : Device}
    → inst.idx ≢ i
    → Pinned ds inst s
    → (s' : Device) × Pinned (set ds i d') inst s'
Pinned-set_ne ds i d' {inst} {s} other p = (
  s,
  record {
    at_slot = get_elem?-set_ne ds d' (λ e. other (sym e)) ∙ p.at_slot;
    live = p.live;
    magic_ok = p.magic_ok;
    below = p.below;
    birth_ok = p.birth_ok;
  },
)

-- A slot that is not in use has no open instance.
unused_unheld :
    (w : World) (i : ℕ) {d : Device}
    → Balanced w
    → get_elem? w.devices i ≡ some d
    → entry_live d ≡ false
    → count i w.handles ≡ 0
unused_unheld w i {d} b was dead =
    count_unheld i w.handles (λ k inst held e. go inst (b.pinned k held).1 e)
  where
    go : (inst : Instance) {s : Device} → Pinned w.devices inst s → ¬ (inst.idx ≡ i)
    go inst p e = absurd (ground (arith, p.at_slot, p.live))

unused_dead : (d : Device) → d.inuse ≡ false → entry_live d ≡ false
unfolding entry_live
unused_dead d e = ground arith

pub registers-Balanced :
    (w : World) (dev : Device) {ds' : List Device}
    → Balanced w
    → Filled w.devices dev ds'
    → Balanced (record w { devices = ds' })
registers-Balanced w dev {ds'} b f =
    let dead = unused_dead f.slot f.unused in
    record {
      bounded = rw (f.now, length-set) b.bounded;
      pinned = λ k held. rw f.now (
          Pinned-set w.devices f.at (fill f.slot dev) f.was (λ live. absurd cc) refl
            (b.pinned k held).1);
      counted = λ i e. elim (set_slot w.devices f.at (fill f.slot dev) i f.was (rw f.now at e)) [
        | inl (at, is) ↦ rw (is, at) (sym (unused_unheld w f.at b f.was dead))
        | inr (ne, was) ↦ b.counted i was
      ];
    }

pub unregisters-Balanced :
    (w : World) (n : CString) {ds' : List Device}
    → Balanced w
    → Blanked w.devices n ds'
    → Balanced (record w { devices = ds' })
unregisters-Balanced w n {ds'} b f =
    let was = (find_hit w.devices n f.found).0 in
    let unheld : count f.at w.handles ≡ 0 = sym (b.counted f.at was) ∙ f.idle in
    record {
      bounded = rw (f.now, length-set) b.bounded;
      pinned = λ k held. rw f.now (
          Pinned-set_ne w.devices f.at (blanked f.slot) (count_zero f.at w.handles k unheld held)
            (b.pinned k held).1);
      counted = λ i e. elim (set_slot w.devices f.at (blanked f.slot) i was (rw f.now at e)) [
        | inl (at, is) ↦ rw (is, at) (sym unheld)
        | inr (ne, old) ↦ b.counted i old
      ];
    }

bump : Device → Device
bump d = record d { ref = (d.ref + 1) % 256 }

-- The new instance is pinned, and the others stay so.
opens-Pinned :
    (w : World) (n : CString) {inst : Instance} {ds' : List Device}
    → Balanced w
    → (o : Opened w.devices n inst ds') → get_elem? w.devices o.at ≡ some o.slot
    → inst.idx ≡ o.at
    → o.at < max_devices
    → (k : ℕ) {other : Instance} → get_elem? (inst ∷ w.handles) k ≡ some other
    → (d : Device) × Pinned (set w.devices o.at (bump o.slot)) other d
unfolding bump entry_live
opens-Pinned w n {inst} b o was own inside zero {other} held =
    let same : other ≡ inst = cc in
    (
      bump o.slot,
      rw same (record {
        at_slot =
            rw own (get_elem?-set_self w.devices o.at (bump o.slot) (bound_of w.devices o.at was));
        live = o.live;
        magic_ok = o.magic_ok;
        below = rw own inside;
        birth_ok = o.birth_ok;
      }),
    )
opens-Pinned w n b o was own inside (suc k) held =
    Pinned-set w.devices o.at (bump o.slot) was (λ live. live) refl (b.pinned k held).1

pub opens-Balanced :
    (w : World) (n : CString) {inst : Instance} {ds' : List Device}
    → Balanced w
    → (o : Opened w.devices n inst ds') → o.slot.ref < 255
    → Balanced (record { devices = ds'; handles = inst ∷ w.handles })
unfolding bump
opens-Balanced w n {inst} {ds'} b o small =
    let was = (find_hit w.devices n o.found).0 in
    let inside : o.at < max_devices = omega (arith, bound_of w.devices o.at was, b.bounded) in
    let own : inst.idx ≡ o.at = omega (arith, o.index_ok) in
    record {
      bounded = rw (o.now, length-set) b.bounded;
      pinned = λ k held. rw o.now (opens-Pinned w n b o was own inside k held);
      counted = λ i e. elim (set_slot w.devices o.at (bump o.slot) i was (rw o.now at e)) [
        | inl (at, is) ↦ opened_count i at is (b.counted o.at was) own small
        | inr (ne, old) ↦ ground (arith, b.counted i old)
      ];
    }
  where
    opened_count :
        {d : Device} (i : ℕ)
        → i ≡ o.at
        → d ≡ bump o.slot
        → o.slot.ref ≡ count o.at w.handles
        → inst.idx ≡ o.at
        → o.slot.ref < 255
        → d.ref ≡ count i (inst ∷ w.handles)
    opened_count i at is c own small = rw (is, at) (ground arith)

drop_ref : Device → Device
drop_ref d = record d { ref = d.ref - 1 }

pub closes-Balanced :
    (w : World) (k : ℕ) {inst : Instance} {ds' : List Device}
    → Balanced w
    → get_elem? w.handles k ≡ some inst
    → close_device w.devices inst ≡ ok ds'
    → Balanced (record { devices = ds'; handles = remove k w.handles })
unfolding drop_ref entry_live
closes-Balanced w k {inst} {ds'} b held e =
    let (d, valid, now) = close_device-ok w.devices inst e in
    let p = (inst_slot-Pinned w.devices inst valid).0 in
    let less = λ (i : ℕ). count-remove i w.handles k held in
    record {
      bounded = rw (now, length-set) b.bounded;
      pinned = λ j kept. rw now (
          Pinned-set w.devices inst.idx (drop_ref d) p.at_slot (λ live. live) refl
            (b.pinned (get_elem?-remove w.handles k j kept).0
              (get_elem?-remove w.handles k j kept).1).1);
      counted = λ i e. elim (set_slot w.devices inst.idx (drop_ref d) i p.at_slot (rw now at e)) [
        | inl (at, is) ↦ rw (is, at) (ground (arith, less inst.idx, b.counted inst.idx p.at_slot))
        | inr (ne, old) ↦ ground (arith, less i, b.counted i old)
      ];
    }
