-- ===== src/Lib.antt =====
-- A user-level virtual machine in C++: threads with priorities under a preemptive scheduler, mutexes,
-- memory pools, and a FAT16 image mounted for reading. This library models the state of the machine,
-- the calls that applications make, and the loading and reading of the image.
--
-- Parts, and how they interact:
-- - Base: tests on native numbers, lists, signed integers, machine words. An `unsigned int` is a
--   number with each sum, difference and product taken modulo 2 ^ 32; a pointer is its address, NULL
--   being 0.
-- - Memory models MPCB.cpp and MemBlock.cpp: a pool and its list of blocks in address order.
--   Memory/Fit is about the list, Memory/Alloc about the pool.
-- - Kernel models Thread.cpp, Mutex.cpp and, of VirtualMachine.cpp, the ready queues, `scheduler`,
--   `timerISR` and `fileCallback`. Objects are shared by reference, so Kernel/State has a heap of
--   threads and one of mutexes, and NULL is `none`. Kernel/Mutexes and Kernel/Threads have one
--   function per method, Kernel/Scheduler the scheduler up to the context switch. Kernel/Exclusion
--   is about who holds and owns mutexes, by moves of an abstract lock table; Kernel/Timers is about
--   ticks, Kernel/Dispatch about the choice of the scheduler, Kernel/Queues about loops that cycle
--   a queue, Kernel/Handover about a release with waiters.
-- - Fat models FATData.cpp and the `fill` functions of Dir.cpp: Fat/Bytes little-endian fields,
--   Fat/Entries directory entries, Fat/Image the constructor, Fat/Files `readFromFile`, Fat/Report
--   what `fatls`, `fatout` and `fatvol` print.
-- - Vm models the rest of VirtualMachine.cpp, a file per group of calls: Vm/Pools, Vm/Mutexes,
--   Vm/Threads, Vm/Files, Vm/Directories (with the class of Dir.cpp), Vm/Interrupts; Vm/Start is
--   `VMStart`, which needs the machine of Machine/Startup. Vm/State has the
--   global variables and the signal mask that each call suspends and resumes. A call that may give
--   up the processor has an `Outcome`: it returned, it switched to the thread that the scheduler
--   chose, or C++ leaves it undefined. What a thread does when it runs again is a function of its
--   own (`acquired`, `create_thread`, `file_opened`). Vm/Calls collects the calls on threads,
--   mutexes, memory pools and files, the handlers and the resumptions as one step, and `Reach` is
--   the states that sequences of steps lead to, in any order. Vm/Exclusion lifts Kernel/Exclusion to
--   these states, and Vm/Soundness is about their signal mask and their pools. Vm/Answers joins the
--   calls on files to Machine: a request with `fileCallback` and the running thread, and the
--   callbacks that the handler of replies calls. Vm/Start/Shutdown is the loop over the mutexes at
--   the end of `VMStart`.
-- - Machine models Machine.cpp, two processes that exchange messages. Machine/Wire has the integers
--   and pointers in a payload, Machine/Requests the parent's calls and its reply handler,
--   Machine/Server the loop of the child, Machine/Startup `MachineInitialize` and `MachineTerminate`.
--   Machine/Protocol says what a request asks for without messages, and compares the child with it;
--   Machine/Flight has the steps of the two processes, in any order, and where requests are.
-- - Paths models the strings and paths of VirtualMachineUtils.c: Paths the functions that test, join
--   and split, Paths/Copying the copies into buffers, Paths/Simplify and Paths/Relative the rest.
-- - Program models main.c and the programs that run on the virtual machine. Program/Options is the
--   command line. Program/Shell is how the shell (apps/shell.c) reads a line and what command it
--   takes it for, Program/Session its loop and the loops of `ls` and `cat` (`CatFile` of
--   apps/fat.c), over an interface of calls, Program/Host. Program/Console fills the calls on
--   directories with those of Vm; Program/Script compares a session with the commands typed. Program/Entry is a line of a listing,
--   Program/Print `VMFilePrint` and `VMDateTime`; Program/Demo is `VMMain` of apps/fat.c.
-- - Examples runs the definitions on concrete states.
--
-- Correspondence: a function has the name of the C++ function in lower case with underscores
-- (`VMMemoryPoolAllocate` is `vm_memory_pool_allocate`), a field that of the member. A method that
-- changes objects takes the state and returns it; an out-parameter is part of the result. A global
-- vector is a list; a loop with an early return is recursion on the list.
--
-- Parameters: `read_at o n` is what `seekg(o)` and `read(buffer, n)` leave in the buffer; a theorem
-- that needs reads to be whole says so. `blank` and `junk` are what stands in memory before it is
-- initialised.
--
-- `scan_int` and `scan_unsigned` stand for `sscanf`, and `vsnprintf` for the function of C. The
-- record `Os` stands for the system calls of the child, each with its result and the system's
-- next state. `scan_int` and `scan_unsigned` stand for `sscanf`, `vsnprintf` for the function of C.
-- The message queues are lists of messages, the oldest first, without a bound; a signal
-- is not a value, so each step of Machine/Flight is one that a signal may bring about. In Paths a
-- string is the list of its bytes before the NUL.
--
-- Fuel: the loop of `readFromFile` follows a table that may be circular. Each round takes a whole
-- cluster off the length that is left, so that length divided by the cluster size, and one, is
-- enough; `endless` is the result when fuel runs out. The loop of `VMFileWrite` takes a round for each
-- whole block of 512 bytes and one more. The loop of `VMFileSystemSimplifyPath` takes at least one
-- byte of the relative path in each round, so the length of that path is enough; `unfinished` is the
-- result when fuel runs out. The loops of the shell are the host's to end: `none` is fuel that does
-- not suffice, and the theorems say how much does. Every other loop is structural.
--
-- Not modelled: the loop of VMStart (VirtualMachine.cpp) that terminates the threads behind VMMain,
-- `skeleton` and Tibia; contexts, the alarm and the signals of Machine.cpp but for the signal mask;
-- the loading of modules; the other applications, which are fixed sequences of calls, and the copies
-- under proj4Tests. The keyboard of the shell is a list of characters, of which VMFileRead
-- gives as many as it gets blocks of shared memory for. The signal mask is that of the timer's signal.
pub mod Base
pub mod Memory
pub mod Paths
pub mod Program
pub mod Kernel
pub mod Fat
pub mod Machine
pub mod Vm
pub mod Examples
