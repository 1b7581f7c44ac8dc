-- ===== src/Lib.antt =====
-- The virtual memory simulator of working/, and the character drivers of Aufgabe4_final/ and
-- Aufgabe4/vorlauf/.
--
-- The simulator is two processes that share one structure (working/vmem.h). The memory manager
-- (working/mmanage.c) makes the shared memory and the page file and waits for signals; on SIGUSR1
-- it loads the page that the client has requested into a frame, which it chooses by FIFO, CLOCK
-- or CLOCK2 (a macro of the Makefile). The client (working/vmaccess.c) reads and writes by
-- virtual address: it notes the page, signals the manager if the page is not loaded, waits for
-- the semaphore, and then touches the frame.
--
-- probe/ is an earlier version of the simulator, with LFU beside FIFO and CLOCK, and a semaphore
-- that the client holds for the whole of an access. Aufgabe3/ is the first version: its manager
-- serves a fault outside of the signal handler, and its semaphore starts at 1.
--
-- The driver (Aufgabe4_final/translate.c) keeps two devices, each a ring buffer of chars with a
-- lock for writers and one for readers. translate0 encodes the letters that are written to it by
-- a substitution string, translate1 decodes the chars that are read from it. The driver of
-- another group (Aufgabe4/vorlauf/translate/translate.c) does the same, but its readers and
-- writers sleep on two semaphores, one for the filled and one for the free places of the ring.
--
-- Files:
-- - Prelude: shared names; Tests, Int (C ints that may be negative), Arrays (a C array is a
--   function of the index; every access of the model checks the bound), Lists, Rings (positions
--   that go round).
-- - Vmem: working/vmem.h. Sizes, Flags and FlagSets (the PTF_ bits, on the bit pattern of the
--   int), State (struct pt_entry, vmem_adm_struct, pt_struct, vmem_struct, logevent, and the
--   globals), Run (the commands, and how a run can stop), Cells (array accesses), Pagefile
--   (fseek, fread, fwrite), Os (what shm_open, ftruncate, mmap and sem_init answer).
-- - Manager: working/mmanage.c. Replace (find_remove_frame, find_remove_fifo, find_remove_clock,
--   find_remove_clock2, rotate_alloc_idx), Paging (store_page, fetch_page, update_unload,
--   update_load, update_pt, logger, page_fault), Signals (sighandler, case_page_fault, noticed,
--   signal_proccessing_loop), Boot (init_pagefile, open_logfile, vmem_init), Main (main). The
--   invariant is in Valid; proofs are in Sweep and Clock (the algorithms), Moves and Exchange
--   (single moves as equations), Served, Unused and Fault (page_fault), Fifo (the order of FIFO),
--   Chances (all algorithms as a queue with second chances), Started (main up to the loop).
-- - Paging: which page lies in which frame, and what the virtual memory holds (Coherent), and how
--   that survives the removal of a page (Unload), the load of one (Load), a store (Touch).
-- - Flat: the flat memory that the client is promised.
-- - Access: working/vmaccess.c. Ready (the request), Cells (countUsed, read_page, write_page),
--   Refine (vmem_read and vmem_write against the flat memory).
-- - Processes: working/vmaccess.c and working/mmanage.c as processes that take turns: step
--   relations of a client and of the manager with its signal handlers. Single (what holds between
--   one client and the manager), Turns and Keeps (the manager's steps), Moves (the client's),
--   Alone (the system), Refine, Work and Progress (runs end), Lost (a SIGUSR2 at the wrong time),
--   Clash (two clients).
-- - Client: working/vmappl.c. Program (what a client can do: read, write, and go on by what it
--   read), Refine (every program against the flat memory), Appl (init_data, display_data, swap,
--   quicksort, sort, main), Fill (init_data and display_data), Exchange, Scan, Partition and Sort
--   (quicksort), Demo (main).
-- - Probe: probe/mmanage.c and probe/vmaccess.c, over the state of working/. State and Cells (the
--   counts of the entries, g_count, data_full, and the ints before the table), Replace
--   (find_remove_frame, find_remove_lfu, find_remove_fifo, find_remove_clock), Paging (what
--   sighandler does on SIGUSR1: store_page, update_pt, fetch_page, logger), Access (sighandler,
--   the loop of main, vmem_read, vmem_write), Boot (main, init_pagefile, vmem_init,
--   init_semaphor). Proofs: Valid (the invariant), Lfu and Picked (the algorithms), Moves,
--   Exchange, Served, Full, Unused, Fault, Least (LFU), Ready, Touch, Refine, Counts, Started.
-- - Early: Aufgabe3/mmanage.c and Aufgabe3/vmaccess.c, on the structures of working/. Replace
--   (find_remove_frame and the algorithms), Paging (store_page, update_pt, fetch_page,
--   page_fault, signal_proccessing_loop), Access (vmem_read, vmem_write), Boot (main, vmem_init,
--   init_pagefile), Appl (Aufgabe3/vmappl.c). Proofs: Fault (page_fault), Race and First (the
--   client before the manager), Resident (the pages that are loaded), Requests and Stored (an
--   access), ReadTest and Demo (the test of the memory in main of vmappl.c).
-- - Translate: Aufgabe4_final/translate.c. Chars (encode_char, decode_char,
--   encode_index_from_char, decode_from_index), Device (struct translate_dev, translate_open,
--   translate_close, translate_write, translate_read), Module (translate_init,
--   translate_setup_cdev, translate_cleanup, cleanup_single_translate_dev). Proofs: RoundTrip
--   (decoding after encoding), Queue (the ring buffer as a queue), Write, Read, Stream (sequences
--   of calls), Locks (open files), Loaded (loading and unloading), Together (a writer and a
--   reader at the same time: Flow, Ring and Conserve with items changed in one piece, Miscount
--   without).
-- - Vorlauf: Aufgabe4/vorlauf/translate/translate.c. Chars (encode, decode, getEncodedCharIndex),
--   Device (struct translate_dev, translate_open, translate_release, translate_write,
--   translate_read), Module (translate_init, translate_setup_cdev, translate_cleanup). Proofs:
--   SameChars and Same (against Aufgabe4_final), Counted (the semaphores count the ring), Write,
--   Read, Wakes (who sleeps), Locks (open files and the usage count), Loaded.
-- - Tests: concrete states, runs, and the theorems at inputs that meet their hypotheses.
--
-- Modelling decisions:
-- - An int that can be -1 is an integer of Prelude.Int; sizes, counters and flag words are
--   naturals. pf_count wraps at 2 ^ 32 as a bit pattern. The ints of data are moved and compared.
-- - entries[VOID_IDX] is entries[-1]: the two ints before the table, vmem->adm.pf_count and
--   vmem->adm.bitmap[0], the last members of the structure before it. Any other index out of
--   range stops the run.
-- - In probe/, entries[-1] is the three ints before the table. Which they are depends on the size
--   of a pointer, which is a parameter of the model. A count is the bit pattern of an int.
-- - In Aufgabe3/ the client looks at the semaphore after or before the manager has served its
--   signal; which of the two is an argument of an access. A client who finds the semaphore at 0
--   sleeps, and the manager serves him then. The sixteenth fault takes frame 16: the program reads
--   and writes data[0] for framepage[16], and the cells behind data, and goes on; the model stops
--   there.
-- - The loops of the two clock algorithms run on fuel 33: sixteen frames have at most two used
--   bits each, and every round but the last clears one.
-- - In Access, kill runs the handler to its end before sem_wait is looked at. In working/ the
--   semaphore starts at 0, so the wait cannot end earlier; in probe/ the first sem_wait of the
--   access has left 0. One client is modelled there.
-- - In Processes, a client's step is one statement on the shared memory, a signal or the
--   semaphore, or the access; a step of the manager is one statement on signal_number, the
--   delivery of a signal, or page_fault as a whole. A signal is pending or not, its own handler
--   is not interrupted by it, and SIGINT is not sent. The test of signal_number in
--   case_page_fault and the call of noticed that follows it are one step, and a signal always
--   wakes pause.
-- - rand, the results of the system calls, and the ints that the medium of the page file fails to
--   transfer are arguments. Output other than the log is left out.
-- - The loops of quicksort run on fuel: r + 1 for each loop of a call, length + 1 for the calls.
--   In `vmem_read(i) < vmem_read(r)` the left side is read first.
-- - A char is a byte, a C string the list of its bytes. The loops of translate_write and
--   translate_read are recursive on the count; the process's memory and the kernel's answers are
--   arguments. The calls on a device come one after the other, but for Translate/Together.
-- - In Aufgabe4/vorlauf a call that finds no place ends with the outcome asleep, or with
--   -ERESTARTSYS if a signal is pending (an argument). It goes on as a call from the start, which
--   is what happens if no other process shares the open file: the index that the loop starts with
--   is then still right.
--
-- Not modelled: Aufgabe4/echt, an earlier copy of Aufgabe4_final; Aufgabe4/yolo, a draft that does
-- not compile; Aufgabe4/scull, the drivers of a textbook; Aufgabe4/try, which only prints; the
-- skeleton Aufgabe3_w13_pub, whose functions are declared and not written; and the demo application
-- of probe/, whose quicksort can read the address -1, while the addresses of the model are not
-- negative.
pub mod Prelude
pub mod Vmem
pub mod Paging
pub mod Manager
pub mod Flat
pub mod Access
pub mod Client
pub mod Translate
pub mod Vorlauf
pub mod Tests
pub mod Probe
pub mod Processes
pub mod Early
