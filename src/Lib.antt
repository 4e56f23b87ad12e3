-- ===== src/Lib.antt =====
-- The emulator of the CD32-PPC board: a PowerPC 603e and a ColdFire that share a bus, and what
-- hangs on that bus. This library models the machine with both of its processors, and the generator
-- of the boot ROMs that they start from.
--
-- The parts, and how they interact:
-- * `Cd32Hardware` (src/hardware.rs, here Hardware) owns the two processors and the bus. Its loop
--   gives each cycle to one processor, by a debt that keeps the ratio 266 to 140, and at the end of
--   every quantum of 16 cycles ticks the bus and carries out the transfers of the DMA.
--   Hardware/Turns has the lemmas on one turn of the loop.
-- * `Bus` (src/bus.rs, here Bus and Bus/Access) owns the memory and the peripherals. It routes each
--   access by the region of its address, runs the mailbox between the processors, and ticks the GPU,
--   the audio and the CD-ROM drive; the vertical blank of the GPU becomes an interrupt.
-- * `ColdFire` (src/cpu/coldfire.rs) is the processor that boots the board. ColdFire has its registers,
--   its flags and its ways to the bus, ColdFire/Operands the effective addresses, ColdFire/Moves,
--   ColdFire/Flow, ColdFire/Arith, ColdFire/Division and ColdFire/Logic the handlers of the
--   instructions, ColdFire/Dispatch the choice of the handler and the step. It runs over any
--   `BusInterface` (Bus/Interface); Hardware/Processors puts it on the bus of the machine, and Bus/Ram
--   makes the RAM of that bus the memory of its stack.
-- * `Ppu` (src/cpu/ppc603e.rs) is the PowerPC, which the ColdFire lets go. Ppc has its registers and
--   its ways to the bus, Ppc/Mmu `translate`, Ppc/Arith, Ppc/Logic, Ppc/Storage, Ppc/Special and
--   Ppc/Branch the handlers of the instructions, and Ppc/Dispatch the choice of the handler and the
--   step. A `match` on an opcode is a table of its arms, for both processors (Base/Arms). It runs over
--   any `BusInterface` too, and Hardware/Processors puts it on the bus of the machine.
-- * The ROM generator (src/bin/gen_rom.rs): Rom has the encoders of instructions, Rom/Image the image
--   and how it is filled, Rom/Programs the programs of both processors, Rom/Targets the images of the
--   three targets, from the contents of the files. Rom/Agreement and Rom/Boot run what it writes on
--   the PowerPC.
-- * `MemoryMap` (src/memory.rs, here Memory): the region table and the three memories.
-- * `InterruptController` (src/interrupt.rs, here Interrupt), asserted by the bus and the machine.
-- * `DmaController` (src/dma.rs, here Dma): its tick gives a list of transfers, which the machine
--   carries out.
-- * `CdromDrive` (src/cdrom.rs): Cdrom has the drive, Cdrom/Registers its register window, Cdrom/Iso
--   the reader of ISO 9660 discs.
-- * Save states (src/save.rs): Save has the format of the file, which is the list of its bytes,
--   Save/Processors and Save/Sections what each section holds, Save/State `save_state` and `load_state`.
-- * `AudioSubsystem` (src/audio/dsp.rs, here Audio).
-- * `Gpu` (src/gpu/tbdr.rs): Gpu has the frame machine and the registers, Gpu/Pixels CLEAR, RECT and
--   LINE, Gpu/Raster the triangles, Gpu/Lists the display list.
--
-- A definition has the name of the function it models; `self` is an argument and, where it is
-- mutable, part of the result. Child modules named for a subject hold the lemmas on it; those named
-- Tests hold concrete runs and uses of the theorems. Base has what all parts share.
--
-- Numbers are natural numbers with the wrap-around of the source's widths written out; signed ones
-- are the integers of Base/Int. Arithmetic that overflows wraps, as it does in a release build.
-- Arrays of fixed size are functions from the index, byte vectors a length and a function (`Bytes`).
-- Fallible accesses are options. An instruction is an `Exec` (Base/Exec): it takes the processor and
-- the bus to a new pair with a result or an error, and what it had changed before an error stays.
-- A write of the bus gives `none` where the source refuses it, with the bus as it was. Code that may
-- panic or loop returns a `Run`: a value, `panic`, or `out_of_fuel`, which no function of the source
-- has and which is shown not to occur:
-- * the display list has as fuel an eighth of its length and one, a command being 8 bytes;
-- * LINE has as fuel the sum of the two distances and one;
-- * the directory scan has as fuel the length of its buffer and one, a record being at least 34 bytes;
-- * the loop over the sections of a save state has as fuel the length of the file and one;
-- * `run_cycles` counts its rounds and needs none; no loop of the PowerPC needs any.
--
-- Not modelled:
-- * the inside of the processors in Hardware, where a processor is a parameter, a record `Cpu` of a
--   state, a halt flag, a reset and a step against the bus; that a step ends is a hypothesis named
--   `Stops`, which Hardware/Processors fills for both;
-- * log messages and trace flags; `poll_serial` reads two bytes and drops them;
-- * the arguments of the ROM generator, the files it reads and writes, and what it prints;
-- * disassembler, front end and tools (src/disasm.rs, src/main.rs, src/sdl_debug.rs, tools), which
--   work on the machine from outside;
-- * the C sources of the guest (kernel, boards, include).
pub mod Base
pub mod Interrupt
pub mod Dma
pub mod Memory
pub mod Cdrom
pub mod Audio
pub mod Gpu
pub mod Bus
pub mod ColdFire
pub mod Ppc
pub mod Rom
pub mod Hardware
pub mod Save
