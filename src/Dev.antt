-- ===== src/Dev.antt =====
-- The device registry, kernel/dev/device.c.
-- A function pointer is its address, `none` for NULL, and a dispatched call is a value that names
-- the hook and its arguments; what an open hook and kmalloc return are arguments.
pub mod Slots
pub mod Lifetime
pub mod Balance
pub mod Handles
use void.Base.{
  ℕ, zero, suc, ◌+◌, ◌-◌, ◌%◌, ◌^◌, Bool, true, false, not, ◌&&◌, ◌||◌, Option, none, some, List,
  [], ◌∷◌, ltb, leb, ◌==◌, if◌then◌else◌, length, get_elem?, set, Ret, ok, err, inval,
  name_too_long, exist, nomem, busy, noent, badf,
}
use void.Base.Strings.{CString, streq}

abbrev pub max_devices : ℕ
max_devices = 32

abbrev pub name_max : ℕ
name_max = 63

abbrev pub instance_magic : ℕ
instance_magic = 0x0871

pub record Ops : Type 0 where
  pub open_hook : Option ℕ
  pub close_hook : Option ℕ
  pub read_hook : Option ℕ
  pub write_hook : Option ℕ
  pub ioctl_hook : Option ℕ

pub record Device : Type 0 where
  pub name : Option CString
  pub payload : ℕ
  pub ops : Ops
  pub kind : ℕ
  pub magic : ℕ
  pub ref : ℕ
  pub inuse : Bool

-- What dev_open allocates.
pub record Instance : Type 0 where
  pub magic : ℕ
  pub idx : ℕ
  pub birth : ℕ
  pub priv : ℕ

abbrev pub present : Option ℕ → Bool
present none = false
present (some _) = true

-- The address of dev_noread.
abbrev pub noread : ℕ
noread = 1

unfoldable pub entry_live : Device → Bool
entry_live d = d.inuse && elim d.name [ none ↦ false | some _ ↦ true ] && present d.ops.open_hook

-- A slot in use that carries the name.
unfoldable pub matches : CString → Device → Bool
matches n d = d.inuse && elim d.name [ none ↦ false | some m ↦ streq n m ]

abbrev pub next_slot : Option (ℕ × Device) → Option (ℕ × Device)
next_slot none = none
next_slot (some (i, e)) = some (suc i, e)

unfoldable pub find : List Device → CString → Option (ℕ × Device)
unfolding matches
find [] n = none
find (d ∷ ds) n = let rest = next_slot (find ds n) in if matches n d then some (0, d) else rest

-- dev_init: slot `i` gets the seed `i + 0x100`, a uint16_t.
unfoldable pub init_from : ℕ → List Device → List Device
init_from i [] = []
init_from i (d ∷ ds) = record d { magic = (i + 0x100) % 2 ^ 16 } ∷ init_from (i + 1) ds

abbrev pub with_read : Ops → Ops
with_read ops = record ops {
  read_hook = elim ops.read_hook [ none ↦ some noread | some r ↦ some r ];
}

-- The slot keeps its seed; all else is the driver's.
abbrev pub fill : Device → Device → Device
fill slot dev = record slot {
  name = dev.name;
  payload = dev.payload;
  ops = with_read dev.ops;
  kind = dev.kind;
  inuse = true;
  ref = 0;
}

unfoldable pub publish : List Device → Device → Ret (List Device)
publish [] dev = err nomem
publish (d ∷ ds) dev =
    let rest = publish ds dev in
    if d.inuse then elim rest [ ok ds' ↦ ok (d ∷ ds') | err e ↦ err e ] else ok (fill d dev ∷ ds)

abbrev pub checked_name : Device → Ret CString
checked_name dev = elim dev.name [
  | none ↦ err inval
  | some n ↦
      if not (present dev.ops.open_hook)
      then err inval
      else if ltb (name_max - 1) (length n)
      then err name_too_long
      else if length n == 0
      then err inval
      else ok n
]

unfoldable pub register : List Device → Device → Ret (List Device)
unfolding find publish
register ds dev = elim (checked_name dev) [
  | err e ↦ err e
  | ok n ↦ elim (find ds n) [ some _ ↦ err exist | none ↦ publish ds dev ]
]

unfoldable pub unregister : List Device → CString → Ret (List Device)
unfolding find
unregister ds n = if length n == 0 then err inval else elim (find ds n) [
  | none ↦ err noent
  | some (i, d) ↦
      if not (d.ref == 0)
      then err busy
      else ok (set ds i (record d { name = none; payload = 0; inuse = false; ref = 0 }))
]

unfoldable pub dev_lookup : List Device → CString → Option (ℕ × Device)
unfolding find
dev_lookup ds n = if length n == 0 then none else find ds n

-- `priv` is what the driver's open hook returns, `memory` whether kmalloc finds room. The reference
-- count is a uint8_t.
unfoldable pub open_device :
    List Device → CString → (priv : Option ℕ) → (memory : Bool) → Option (Instance × List Device)
unfolding dev_lookup entry_live
open_device ds n priv memory = elim (dev_lookup ds n) [
  | none ↦ none
  | some (i, d) ↦ if not (entry_live d) then none else elim priv [
    | none ↦ none
    | some p ↦
        if memory
        then some (
          record { magic = instance_magic; idx = i % 256; birth = d.magic; priv = p },
          set ds i (record d { ref = (d.ref + 1) % 256 }),
        )
        else none
  ]
]

-- The slot of a valid instance.
unfoldable pub inst_slot : List Device → Instance → Option Device
unfolding entry_live
inst_slot ds inst =
    if not (inst.magic == instance_magic) || leb max_devices inst.idx
    then none
    else elim (get_elem? ds inst.idx) [
      | none ↦ none
      | some d ↦ if entry_live d && not (d.ref == 0) && inst.birth == d.magic then some d else none
    ]

unfoldable pub close_device : List Device → Instance → Ret (List Device)
unfolding inst_slot
close_device ds inst =
    if not (inst.magic == instance_magic) then err inval else elim (inst_slot ds inst) [
      | none ↦ err badf
      | some d ↦ ok (set ds inst.idx (record d { ref = d.ref - 1 }))
    ]

-- A call that is passed on to the driver: its hook, the open handle and two arguments.
pub record Call : Type 0 where
  pub hook : ℕ
  pub priv : ℕ
  pub arg1 : ℕ
  pub arg2 : ℕ

-- dev_read, dev_write and dev_ioctl differ in the hook that they choose.
unfoldable pub dispatch : (Ops → Option ℕ) → List Device → Instance → ℕ → ℕ → Ret Call
unfolding inst_slot
dispatch choose ds inst a b = elim (inst_slot ds inst) [
  | none ↦ err badf
  | some d ↦ elim (choose d.ops) [
    | none ↦ err badf
    | some h ↦ ok (record { hook = h; priv = inst.priv; arg1 = a; arg2 = b })
  ]
]

abbrev pub dev_read : List Device → Instance → ℕ → ℕ → Ret Call
dev_read = dispatch (λ ops. ops.read_hook)

abbrev pub dev_write : List Device → Instance → ℕ → ℕ → Ret Call
dev_write = dispatch (λ ops. ops.write_hook)

abbrev pub dev_ioctl : List Device → Instance → ℕ → ℕ → Ret Call
dev_ioctl = dispatch (λ ops. ops.ioctl_hook)
