-- ===== src/Tests.antt =====
-- Concrete inputs at which the theorems are applied, and runs that can be followed in the source.
mod Demo
mod Ipc
mod Svc
mod Mm
mod Dev
mod Vfs
mod Tty
mod Sched
mod Libc
mod Elf
mod Vmm
mod Proc
mod Family
mod Mmap
