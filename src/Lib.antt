-- ===== src/Lib.antt =====
-- Oxalyn-64: the assembler and the instruction set simulator of the processor, and the HILAL_BIS
-- kernel that is to run on it.
--
-- The simulator (simulator/sim.c) is one set of static variables; `Sim.State.Cpu` is the record of
-- them. cpu_step first polls the interrupt sources (Sim/Irq), then takes an interrupt or runs one
-- instruction: fetch and the word fetched ahead (Sim/Step), the decoder and the handlers of the
-- opcodes (Sim/Exec), which read and write control registers (Sim/Csr) and raise traps (Sim/Trap).
-- cpu_run repeats this, with a fast path while no interrupt is set up. The kernel's parts share
-- the process table (kernel/kernel.h) and otherwise keep state of their own.
--
--   Base            lists, words of 8, 32 and 64 bits, bits, signed integers, arrays as functions
--   Asm             asm.c: encode and the words of MOVI. Op the opcodes, Text the text helpers, State
--                   the labels and what the branches of process_line share, Branches the branches,
--                   Line process_line, Pass run_pass, write_bin and the two passes of main, Elf
--                   write_elf (Places its offsets, Layout what its headers say).
--                   Encoding, Constant and Movi relate the words to the simulator; Growth, Sizes and
--                   Passes are about the sizes of lines in the two passes, and about labels
--   Sim/State       the machine's variables, cpu_reset, gpu_mmio_read_word, gpu_mmio_write_word
--   Sim/Index, Status, Pending, Priv, Cause, Port, Opcode   the constants
--   Sim/Mpu         mpu_check
--   Sim/Trap        trap, ECALL, SRET and MRET
--   Sim/Csr         csr_read, csr_write
--   Sim/Irq         poll_interrupt_sources, interrupt_pending, take_interrupt
--   Sim/Exec        execute: Insn the fields, Alu, Memory, Branch, Io, System the handlers, Table the
--                   switch; Dispatch, Confine and Isolation are about all of them
--   Sim/Step        cpu_step, cpu_run, the watchdog
--   Sim/Load        load_bin, eeprom_load, eeprom_save
--   Sim/Cold        a machine for the tests
--   Kernel/Memory   kernel/memory.c: kmalloc, kfree
--   Kernel/Kstring  kernel/kstring.c: kmemset with 0, kmemcpy, kstrncpy, kstrlen, kstrcmp
--   Kernel/Ipc      kernel/ipc.c: Pipe the pipes, Queue the message queues, each with a Spec and
--                   the Api that relates the two; Pipe/Promise the pipes as ipc.h describes
--                   them, whose ends are closed one by one (Ends); Window the arrays used as rings
--   Kernel/Process  the process table of kernel/kernel.h
--   Kernel/GuiGuard kernel/gui_guard.c: the drawing quota
--   Kernel/Perms    kernel/perms.c: the table of permissions
--   Kernel/Search   the search loop of the kernel's tables
--   Kernel/Files    kernel/filesystem.c, with the table of permissions
--   Kernel/Rtc      kernel/rtc.c: the date and the timestamp
--   Kernel/Net      kernel/network.c: ARP, eth_send, ip_send
--   Kernel/Tcp      kernel/tcp.c: Stream the calls (Carried and Chunks what tcp_send gives to the card),
--                   Poll tcp_poll, Flow, Session and Wire the
--                   connection over time and the segment on the wire
--   Kernel/Syslog   kernel/syslog.c: the ring of log entries
--   Kernel/Scheduler   kernel/scheduler.c
--   Kernel/Syscalls    kernel/kernel.c: fork, exec, exit, sleep, yield, spawn and the signals
--
-- Words are natural numbers with the wrap-around of their type written out; an `int` is an integer
-- where it can be negative. Arrays that are only indexed in range are functions of the index.
-- A result of -1 or NULL is `none` where it is an index. Undefined behaviour of the C code is
-- `none` in the simulator: a fetch outside `mem`, and the signed division of the smallest number by
-- -1. Loops with a bound in the source recurse on it. cpu_run is given a number of rounds, since a
-- program need not end; a theorem about it holds for every number. kstrlen and kstrcmp have fuel,
-- and their theorem gives them one round more than the string has bytes. The number of log entries,
-- an `int`, is taken to stay below 2^31.
--
-- The assembler's result is its list of words with its labels, and the bytes of the .bin and of the
-- ELF file; the command line, and what is printed, are left out. Its buffer of words is a list that may grow past MAX_INSNS by the one word
-- that the source writes there unchecked. The overflow of the `int32_t` in parse_number, which C
-- leaves undefined, wraps around.
--
-- The simulator is the one with the GPU (oxalyn_GPU_SIM). The GPU itself is not modelled: its
-- answers are a function of the accesses before, held in the machine's state. An entry function
-- that process_run_now calls is a parameter. Left out: everything that is only printed, the
-- display, the debugger's watchpoints; of the kernel the dispatch of system calls, the
-- alarms, the formatting of log messages, the directories, the receiving of frames, UDP and
-- DHCP, the drivers and the desktop.
mod Base
pub mod Asm
pub mod Kernel
pub mod Sim
