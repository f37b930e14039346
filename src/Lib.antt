-- ===== src/Lib.antt =====
-- A model of parts of ImagineOS, a kernel with a small user space, and what holds of it.
--
-- The parts. The loader (bootstrap/) collects the physical ranges in use, sorts and merges them, and
-- hands them to the kernel, whose frame allocator cuts the memory map of the boot protocol around
-- them. The kernel reads the partition table of the disk, loads executables through its ELF parser,
-- keeps the user's account in a record on disk, connects processes by pipes, logs into a ring, and
-- queues the events of keyboard and mouse for the display server. Bytes of the serial port are
-- decoded from UTF-8. The tables of open descriptors hold
-- the ends of the pipes for the processes; the file system on the disk changes its sectors through a
-- journal, which the mount replays. In user space the shell turns a line into tokens and the tokens
-- into pipelines.
--
-- Which file models what:
--   Ipc            kernel/src/ipc.rs; Ipc/Channel is the specification, Ipc/Refinement the proof
--   Descriptors    the descriptor tables of kernel/src/exec/process.rs and create_pipe of
--                  kernel/src/abi/syscall.rs; Descriptors/Processes has fork, spawn, exit and
--                  the calls of all processes in any order
--   Scheduler      kernel/src/exec/process.rs: schedule, timer_tick, exit_current, waitpid_current
--   KernelLog      kernel/src/kernel_log.rs
--   Input          kernel/src/input.rs; Input/Spec is the queue of events as a list
--   Memory         kernel/src/mm/memory.rs, with PhysicalRange of bootstrap/boot_info.rs
--   Bootstrap      sort_and_merge_ranges of bootstrap/bootstrap.rs; Bootstrap/Handover joins it to
--                  the allocator
--   Utf8           kernel/src/console/utf8.rs, and serial_read_char of kernel/src/abi/syscall.rs
--   Elf            kernel/src/exec/elf.rs
--   Gpt            kernel/src/fs/gpt.rs, with the trait of kernel/src/drivers/block.rs
--   Dfs            kernel/src/fs/dfs.rs: the areas, the superblock (Dfs/Superblock), the nodes
--                  (Dfs/Node), transactions and the journal; Dfs/Disk is the disk and its power cuts
--   Accounts       kernel/src/accounts.rs: validation, the record of the database, login, the host
--                  name
--   Mouse          kernel/src/drivers/mouse.rs: poll and decode_delta
--   Permissions    kernel/src/fs/permissions.rs
--   Shell          userland/apps/shell/lexer.rs and parser.rs
--   Base           what they share: numbers and tests, lists by index, rings, i32, bit masks, results
-- The names of the functions are the source's; the functions beside them are its loop bodies,
-- branches and the code behind an early return.
--
-- State. A static table or buffer of the kernel is a record that each operation takes and gives back.
-- An array is a list; an array with a count is the list of its first cells. Where the source walks an
-- index through a slice, the model walks the rest of the slice. Machine words are natural numbers with
-- the checked, saturating or wrapping operation of the source written out; the pointer of the input
-- queue is an i32 that wraps.
--
-- Devices. What an operation of the disk file system asks of the device is the list of its requests;
-- an error of the device ends the list, as a power cut does. A write reaches the disk whole or not at
-- all, and for certain only with the next flush.
--
-- Processes. In Descriptors the slots stand for the processes and which one goes on is open, so that
-- the calls come in any order; Scheduler has the choice that the kernel makes. Whether an address space
-- could be copied, a program loaded or a result written to the caller's memory is an argument.
--
-- Bounds. Loops over arrays are recursion on the list or on the number of rounds left. `allocate_frame`
-- has a round for each region left; `read_word` of the lexer adds a segment in each round,
-- and its bound is one larger than the number of segments; `tokenize`, `parse_list` and
-- `parse_pipeline` count the room left in their arrays; the checksum of the partition entries reads a
-- sector per round, with a round for each byte; the mouse driver has the source's budget of 256 rounds,
-- and `schedule` its sixteen distances.
--
-- Not modelled: access to hardware and the page tables, context switches and most system calls, the
-- file system in memory and the directory operations of the one on disk, drawing, and the user
-- programs. The memory map of the boot protocol, the sectors of the
-- disk, the readings of the mouse's ports, the bytes of the serial port, the random salt and the derived key of a password are arguments.
pub mod Base
pub mod Ipc
pub mod Descriptors
pub mod KernelLog
pub mod Input
pub mod Memory
pub mod Utf8
pub mod Dfs
pub mod Elf
pub mod Shell
pub mod Gpt
pub mod Accounts
pub mod Bootstrap
pub mod Mouse
pub mod Permissions
pub mod Scheduler
