-- ===== src/Lib.antt =====
-- A model of parts of several C programs. Most of it is the kernel of Operating Systems/Kernel
-- Assignment/Kernel Assignment 3/vm/kernel, the last of the three Weenix assignments: files of it
-- are named from that directory, as vm/vmmap.c or proc/sched.c, and headers from Operating
-- Systems/Kernel Assignment/weenix/kernel, as include/vm/vmmap.h. The others are
-- Operating Systems/Warmup Assignment/Warmup Assignment 1 and 2.
--
-- The parts and how they interact:
--
-- Prelude        Lists, maps and tests over the native numbers, and the names that all modules use.
-- Kernel         Error numbers, the `int` of a system call as `Code`, and what running a function
--                leads to as `Outcome`: a result, a failed assertion or NULL pointer (`panic`), or a
--                loop of the model that ran out of rounds (`out_of_fuel`). `Returns P` says that a run
--                ends with a result that has P, so it excludes both of the latter.
-- Vm.Area        vmarea_t, the page constants, and `mapped`, the set of pages that areas cover.
-- Vm.Vmmap       vm/vmmap.c: vmmap_insert, vmmap_lookup, vmmap_is_range_empty, vmmap_find_range.
--                Remove is vmmap_remove, Clone vmmap_clone, Map vmarea_alloc and vmmap_map, Copy
--                vmmap_read. Insert, Ranges, Find, Remove.Place, Remove.Step, Remove.Tail, Map.Pages
--                and Copy.Bytes are proofs.
-- Vm.Brk         vm/brk.c do_brk and vm/mmap.c do_munmap, which call vmmap_lookup,
--                vmmap_is_range_empty and vmmap_remove. Heap has the proofs.
-- Vm.Mmap        vm/mmap.c do_mmap, which calls fget of Files and vmmap_map. Mapped has the proofs.
-- Vm.Pagefault   vm/pagefault.c handle_pagefault, which calls vmmap_lookup. Handled has the proofs.
-- Vm.Access      api/access.c addr_perm and range_perm. Refused has the proofs.
-- Sched          proc/sched.c: the queues, sched_sleep_on, sched_cancellable_sleep_on,
--                sched_wakeup_on, sched_broadcast_on, sched_cancel, sched_switch,
--                sched_make_runnable. Links has the invariant of queues and threads; Wakeup,
--                Broadcast, Cancel and Switch what each operation does; Keeps and Elsewhere what
--                scheduling leaves alone.
-- Mutex          proc/kmutex.c over Sched. Handover is about kmutex_unlock, Late about a thread
--                that is cancelled after it was handed the mutex; Step is the step relation of
--                threads that use one mutex; Safe, Lock, Unlock, Interrupt and Exclusion prove
--                that its invariant is kept.
-- Processes      proc/proc.c: _proc_getid, proc_create, proc_lookup, proc_cleanup and do_waitpid, over
--                the processes in memory and the list of all of them. Ids, Create, Exit and Reaped
--                have the proofs.
-- Files          fs/file.c (of weenix/kernel), get_empty_fd of fs/open.c, and do_close, do_dup and
--                do_dup2 of fs/vfs_syscall.c; Files.Io has do_lseek, do_read and do_getdent,
--                Files.Write do_write. Counted has the invariant that every file's f_refcount is
--                the number of descriptors that point to it; Fresh, Close, Dup, Dup2, Io.Seek,
--                Io.Read, Io.Getdent and Write.Position what each call does.
-- My402List      my402list.c of the warmup assignment: a circular doubly linked list, as the memory of
--                its elements, and every function on it. Holds is the invariant that an address is
--                an element of the list; Links, Steps, Linking, Ends, Insert and Next are lemmas;
--                Placed, Unlink, UnlinkAll and Search say what the functions do. Reads passes on
--                what a user of the list needs.
-- Warmup1        warmup1.c over My402List: insert_list and the loop of process. Insert and Sorted
--                have the proofs. Money is format_money, cal_amount and cal_balance; ReadBack,
--                Digits and Text have its proofs.
-- TokenBucket    warmup2.c of Warmup Assignment 2: what each thread does while it has the mutex,
--                as a function, and the threads in any interleaving as the relation Step. Its
--                lists are what My402List shows a user. Good is the invariant, which Enter, Arrive
--                and Serve keep; Report is about packet_statistics; Conserved and Waiting have
--                what follows.
-- Each part has a module Tests with runs on concrete states.
--
-- State. An address space is the list of its areas in the order of the links, with the number of
-- areas that the slab allocator can still give and the references taken on memory objects. 32-bit
-- page arithmetic wraps (`add32`, `sub32`). vmmap_remove changes the list that it walks, so its
-- model is a cursor: the areas passed and the areas ahead. The scheduler's state has every
-- thread's kt_state, kt_cancelled and kt_wchan, every queue, curthr and the interrupt level;
-- threads and queues are numbers, and queue 0 is the run queue. A function that sleeps ends, in
-- the model, where another thread runs, and what it does when its own thread runs again is a
-- second definition (`lock_woken`, `lock_cancellable_woken`, `sleep_result`). A process of Files
-- has its descriptor table, the files that are allocated and the vnodes; an `int` or `off_t` is
-- its 32-bit word. Interrupts that come while the run queue is empty are a list of the queues that
-- they wake.
--
-- Loops. Walks over lists are structural. The loop of vmmap_remove has three rounds for each area
-- and one more, as a split adds at most two areas ahead; that of sched_broadcast_on has one round
-- for each waiting thread and one more; those of My402ListUnlinkAll and My402ListFind one round
-- for each element and one more, and that of insert_list one more again; that of _proc_getid has
-- one round for each of the 65536 ids, and that of range_perm one for each of the 2 ^ 32 addresses.
-- The theorems show that this is enough.
--
-- A read or write outside of the descriptor table, or of a file that was freed, is `panic`, too.
--
-- Parameters. The memory of a list head that vmmap_find_range reads as an area, the memory of a
-- fresh slab object, the addresses that malloc gives, the result of anon_create, the mmap
-- operation of a vnode, its read, readdir and write operations, pframe_get, pt_virt_to_phys, and
-- the memory that vmmap_read copies from are arguments.
--
-- Not modelled: debug output, the saved register context, curproc (the process of curthr), the TLB
-- and the page directory (do_mmap and do_munmap assert that it is there); vmmap_create,
-- vmmap_destroy and vmmap_write, the creation and exit of threads, fork and kill, the path lookup
-- and the other file system calls, anonymous and shadow objects; the parser and the table of
-- warmup1.c; the command line, the trace file and <Ctrl+C> of warmup2.c, the times that its
-- threads sleep and their sums, and a My402ListAppend without memory; the earlier kernel
-- assignments, whose files are older copies; the rest of the course kernel, and the coursework in
-- other languages.
pub mod Prelude
pub mod My402List
pub mod Warmup1
pub mod TokenBucket
pub mod Kernel
pub mod Vm
pub mod Sched
pub mod Mutex
pub mod Files
pub mod Processes
