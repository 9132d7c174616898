-- ===== src/Lib.antt =====
-- VoidOS, a small kernel for x86-64: a model of its inter-process communication, its service
-- registry, its frame allocator and page tables, the memory of its processes, its checks of user
-- pointers and of ELF images, its device registry, its file system, its terminal, its scheduler,
-- and the string functions of its userland.
--
-- kernel/ipc/ipc.c is Ipc: Queue (ipc_queue_enqueue and ipc_queue_dequeue, the circular queue of
-- an endpoint), Registry (ipc_endpoint_register, _lookup, _unregister_by_owner: the global table),
-- Handles (a process's handle table), Calls (sys_ipc_endpoint_create, _connect, _send, _recv,
-- _close and the teardown in process_exit_current and process_destroy of kernel/proc/process.c).
-- kernel/svc/svc.c is Svc (the table of names) and Svc/Calls (sys_sr_register, _unregister,
-- _lookup). Both work on the state of Kernel.antt, a record of the handle tables, the registry,
-- the names and the user memory; a call is a command that gives a result or an error and a new
-- state. System.antt is the step relation of all these calls, and of exits and switches, from boot
-- on.
--
-- kernel/mm/pmm.c is Mm/Pmm (the bitmap of the frames, pmm_alloc_frame and pmm_free_frame) and
-- Mm/Pmm/Init (pmm_init). kernel/mm/vmm.c is Mm/Vmm: a store of words and the frame allocator make
-- up the machine of alloc_table, walk_or_create, vmm_map_page, vmm_unmap_page, vmm_virt_to_phys
-- and vmm_get_pte. kernel/proc/process.c (the pages a process owns, process_map_user,
-- process_alloc_user_page, brk_init), kernel/mm/user_mem.c (the break, the release of pages and
-- the search for a free range) and the calls sys_brk, sys_mmap and sys_munmap of
-- kernel/syscall/syscall.c are Proc, on that machine. Proc/Table is the process table
-- (process_init, process_alloc, process_destroy and the lookups) and Proc/Life its end
-- (process_exit_current, process_try_reap, process_wait_current), on a state that holds the
-- frames, the open files, the IPC state and the scheduler; Proc/Family says who is whose parent.
-- user_range_ok, copy_from_user and copy_to_user of kernel/syscall/syscall.c are Syscall;
-- Syscall/Copies makes them an instance of the record that the IPC calls take. kernel/elf/elf.c is
-- Elf: elf_validate with its scan of the program headers, elf_load_end and elf_find_embedded.
-- kernel/dev/device.c is Dev: dev_register, dev_unregister, dev_open, dev_close and the dispatch
-- of dev_read, dev_write and dev_ioctl; Dev/Lifetime is the step relation of a registry and its
-- users. kernel/vfs/voidfs.c is Vfs (the tree, vfs_resolve_abs, sys_vfs_chdir) and Vfs/Files
-- (sys_vfs_open, _read, _write, _close, _lseek) and Vfs/User (the copy of a path from user memory,
-- sys_vfs_getcwd, sys_vfs_readdir). kernel/dev/tty.c is Tty. kernel/sched/sched.c is Sched:
-- sched_tick with pick_next, sched_create_kthread, sched_adopt_thread, sched_init.
-- userland/libc/mem.c is Libc.
--
-- What is a parameter: whether kmalloc finds room and what a fresh block holds, and whether there
-- are frames for a kernel stack, are arguments of the calls; the validated copies from and to user
-- memory are the record UserAccess of Kernel/Access.antt for IPC, and a Boolean for a read of a
-- file; what a driver's hook answers is an argument. Pointers are indices into the table that
-- holds what they point to.
--
-- Loops are structural recursion on the table or string that they go through. Some take fuel: the
-- walk of a path, with a round for every byte of it, of which each round takes one or more; the
-- walk along siblings, with a round for every node; and the search of the ring, with a round for
-- every entry of the thread table. The copies from and to user memory have a round for every byte
-- and one more, and each round moves a byte or more; the growth of the break has a round for each
-- page and one more; the release of pages has a round for every page of the process; the search
-- for a free range has a round for every page below the stack and two more, since each round
-- lowers the base. The loops of Libc that look for a NUL take any fuel.
--
-- Not modelled: the kernel heap, process_spawn_user, process_spawn_elf, process_fork_current and
-- process_execve_current, the loading of an ELF image into a process, the dispatch of system
-- calls, drivers, boot, and all of the userland but mem.c; of the modelled files, dev_probe, the
-- frames on a new thread's stack, the set-up of control and model-specific registers, and the
-- self-tests.
pub mod Base
pub mod Ipc
pub mod Svc
pub mod Kernel
pub mod System
pub mod Mm
pub mod Dev
pub mod Vfs
pub mod Tty
pub mod Sched
pub mod Libc
pub mod Elf
pub mod Syscall
pub mod Proc
mod Tests
