-- ===== src/Lib.antt =====
-- Verification of the labs' own code: the Y86-64 instruction set simulator with its loader, the
-- cache simulator, the shell, the memory allocator, the bit puzzles, the matrix transposition and
-- the proxy's connection buffer. Each part stands alone.
--
-- Parts.
--
-- Isa models archlab/sim/misc/isa.c and isa.h, which the assembler and the sequential and
-- pipelined simulators share. `Isa.Memory` is `mem_t` (init_mem to set_word_val), `Isa.Registers`
-- the register file, a memory of sixteen words (get_reg_val, set_reg_val), `Isa.Alu` the functions
-- compute_alu, compute_cc and cond_holds, `Isa.State` the machine's state, `Isa.Table` the tables
-- of registers and instructions and their lookups. `Isa.Step` is step_state: `Step.Fetch` reads
-- the instruction, `Step.Moves` and `Step.Control` hold one function for each case of the switch.
-- Files named Laws, Cases, Bytes, Valid, Preserve, Stack and Branch hold proofs.
--
-- Csim models cachelab/csim.c. `Csim.Heap` is the heap of lines, `Csim.Set` the operations on one
-- set (isFull, evict, load, isCached, dCacheOperate), `Csim.Address` createRightBitMask and
-- parseAddress, `Csim.Sim` initializeDCache, dCacheSimulate and the loop of main over the
-- accesses. `Csim.Lru` is what a set promises: a list of tags, the least recently used first.
-- Links, Move, SetCells, Rounds, Search, Load and Refine prove that the linked lists implement
-- it, Table that the sets stay apart, Tally follows the counters, and Trace the whole run.
--
-- `Isa.Loader` is hex2dig and load_mem, whose file is its characters, with the buffers that
-- fgets fills from them; `Isa.LoadFile` says what an object file is.
--
-- Shell models shlab/tsh.c: `Shell.Jobs` is the job list, clearjob, initjobs, maxjid, addjob,
-- deletejob, fgpid, getjobpid, getjobjid and pid2jid, on the array as a list of any length with
-- its free entries; `Shell.Reap` is what sigchld_handler does with the reports of waitpid, which
-- are its argument. `Shell.Parse` is parseline, on fuel that the length of the line suffices
-- for, and `Shell.Commands` is builtin_cmd and do_bgfg, with sscanf as an argument. `Shell.Eval`
-- is eval, the test of waitfg's loop, sigint_handler and sigtstp_handler; what fork gives is an
-- argument. `Shell.History` is how they follow each other: reports of children come between
-- commands and while waitfg sleeps, not in the middle of a command. Messages and main's options
-- are not modelled. `Shell.JobLaws` and `Shell.Lookup` prove how the list's operations act
-- together; `Shell.Foreground`, `Shell.Fewer`, `Shell.Waiting`, `Shell.EvalKeeps` and
-- `Shell.OneForeground` which jobs are in the foreground.
--
-- Datalab models datalab/bits.c: `Datalab.Int32` is the arithmetic of a 32-bit int on its bits (a
-- right shift of a negative number is arithmetic), `Datalab.Puzzles` the integer puzzles and
-- `Datalab.Floats` the floating-point ones, statement by statement; the other modules prove what
-- the puzzles give. negate and tmin are only tested.
--
-- Trans models cachelab/trans.c: `Trans.Matrix` is the arrays, with `none` for an access outside
-- them and for an `int` that overflows, and counted loops on fuel, one more than the bound,
-- since every step is at least 1; `Trans.Transpose` is transX, trans32, trans64,
-- transpose_submit and is_transpose. `Trans.Loops` and `Trans.Setting` show which cells a loop
-- sets, `Trans.Cover` and `Trans.Blocks` that these are all. A and B do not overlap, as in the
-- driver. registerFunctions is not modelled.
--
-- Proxy models proxylab/sbuf.c: `Proxy.Sbuf` is sbuf_init, and sbuf_insert and sbuf_remove as the
-- statements that threads run in any order, with the returns after a semaphore operation has
-- failed. The semaphores are the argument `Semaphores`: what sem_wait and sem_post do to the value.
-- A store or a read is one step, since `mutex` is held. `Proxy.Sbuf.Ring` is the array as a queue,
-- `Proxy.Sbuf.Inv` the invariant, `Proxy.Sbuf.Statements` that each statement keeps it,
-- `Proxy.Sbuf.Safety` and `Proxy.Sbuf.Progress` what follows for all interleavings.
-- sbuf_free, cache.c and proxy.c are not modelled.
--
-- Malloc models malloclab/src/mm.c, with mem_sbrk of malloclab/src/memlib.c, on a heap that has a
-- word at each multiple of 8: `Malloc.Words` is the macros and mem_sbrk, `Malloc.Blocks` the
-- functions statement by statement. An access outside the heap, or one that is not aligned, is
-- `none`. find_fit is recursion on fuel, one more than the words of the heap, which are more than
-- the blocks of the free list. `Malloc.Layout` says how the words are divided into blocks, with
-- the tags at their ends, `Malloc.Links` and `Malloc.FreeList` what the free list is, and
-- `Malloc.Invariant` puts both together; a heap is settled (`Malloc.Settled`) when the free list
-- has exactly the free blocks and no two of them are neighbours. `Malloc.Merging`,
-- `Malloc.MergeBoth` and `Malloc.Coalesce`, with `Malloc.Kept` and `Malloc.Joined`, follow
-- coalesce, `Malloc.Take`, `Malloc.Split`, `Malloc.SplitHeap` and `Malloc.Place` follow place,
-- `Malloc.Extend` follows extend_heap, and `Malloc.Free` and `Malloc.Allocate` put them together.
-- `Malloc.Calls` is what a client does: calls and writes in any order, with the pieces of memory
-- that it has, which `Malloc.Owned`, `Malloc.Owners` and `Malloc.Client` follow; `Malloc.Copy`,
-- `Malloc.Resize` and `Malloc.Realloc` follow mm_realloc, where memcpy is a copy of whole words. The
-- checks under DEBUG are left out.
--
-- Prelude holds what the parts share: Boolean tests, lists over the native numbers, integers and
-- the bit operations.
--
-- Conventions. A function keeps its C name in snake case. A word is its bit pattern, a number
-- below 2 ^ 64; additions and subtractions wrap, which C leaves undefined on signed words and
-- compilers do; order tests on words are the signed ones. A result `none` is undefined behaviour,
-- an access outside an array or through a bad pointer; a function of isa.c that returns FALSE
-- gives `some none`. Loops over a word's eight bytes are recursion on the rounds; the walk of
-- isCached gets one round more than the set has lines, and the length bounds the rounds of
-- diff_mem. `malloc` is a parameter that is relied on to return an address that is not NULL and
-- holds no line; the counters of the cache simulator are numbers without a bound, and an
-- address of a trace is the 32 bits of an int.
--
-- Not modelled: messages and verbose output, the parsing of options and of trace lines, the
-- graphical interface and freeing of whole memories, which only print or read text; the generated
-- scanners and parsers, the labs' test drivers and the copies of the CS:APP library, which are not
-- the labs' own code. The simulators SEQ and PIPE, whose control logic is generated from HCL, the
-- functions of bomblab, which are restored from machine code, and cache.c and proxy.c of the proxy
-- are outside this library.
pub mod Prelude
pub mod Isa
pub mod Csim
pub mod Shell
pub mod Datalab
pub mod Trans
pub mod Proxy
pub mod Malloc
