-- ===== src/Vm.antt =====
-- Virtual memory: the address space of a process (Kernel Assignment 3, vm/kernel/vm).
pub mod Area
pub mod Vmmap
pub mod Brk
pub mod Access
pub mod Mmap
pub mod Pagefault
