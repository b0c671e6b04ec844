-- ===== src/Lib.antt =====
-- pksx: a model of the PocketStation emulator, and what holds of it.
--
-- The emulator is a processor (an ARM7TDMI) on a bus with memories and devices, all of them ticked
-- by the processor's cycles. The parts, and the files that model them:
-- - Irq: the interrupt controller, src/interrupt.rs. A device sets the level of its line by
--   `set_raw_interrupt`; a rising edge under an open mask is latched; the processor asks for
--   `pending`, `fiq_pending` and `irq_pending`. Irq/Edges and Irq/Pending hold what these do to each
--   bit.
-- - Timer (src/timer.rs), Dac (src/dac.rs), Rtc (src/rtc.rs), Lcd (src/lcd.rs) and Irda
--   (src/irda.rs): the devices. Each has a record for its state, `new`, `load`, `store` and, where
--   it keeps time, `tick`. Timer/Expiry, Dac/Rate and Rtc/Clock hold what ticks come to; Timer/Bounds
--   has the ranges of a timer's fields, Rtc/Bcd the decimal digits, Rtc/Calendar and Rtc/Seconds the
--   calendar, Rtc/Registers the registers of the clock, Lcd/Frame the framebuffer.
-- - Memory: the RAM (src/memory/ram.rs), the BIOS (src/memory/bios.rs) and the flash with its bank
--   tables (src/memory/flash.rs), over the loops of Memory/Bytes.
-- - Bus: `Interconnect` of src/memory/mod.rs, the address map and the tick of all devices.
-- - Cpu: the processor's state of src/cpu/mod.rs. Cpu/Modes has the modes, Cpu/Banks the banked
--   registers, Cpu/Status the status word, Cpu/Interrupts the entry into an interrupt and the return,
--   Cpu/Delivery the way there from a timer.
-- - Cpu/Machine: the processor together with the debugger of src/debugger.rs, and the accesses that
--   call it. Cpu/Blocks and Cpu/Restored follow the loops of the multiple loads
--   and stores in the RAM, for Thumb/Pushes and Arm/Transfers/Stacks.
-- - Arm: the instructions of src/cpu/armv4_is.rs, by groups: Arm/Operands the addressing mode 1,
--   Arm/Logic, Arm/Sums, Arm/Multiply and Arm/Branches the handlers on registers, Arm/Transfers the
--   loads and stores with addressing modes 2, 3 and 4. Arm/Opcodes names the handlers as data, Arm/Table
--   is the table of 4096 of them and the execution of an instruction.
-- - Thumb: the instructions of src/cpu/thumbv1_is.rs: its fields, Thumb/Arithmetic, Thumb/Shifts,
--   Thumb/Transfers, Thumb/Stack and Thumb/Branches the handlers, Thumb/Table the table of 1024.
-- - Run: `run_next_instruction` and `run_ticks` of src/cpu/mod.rs. Its modules follow what each
--   instruction does to the bus; Run/Steps and Run/Frames what comes of it for the loop.
-- - Base: results, tests, words, arrays and bits, for all of these. Access: the width of an access.
-- - Examples: runs on small machines.
--
-- A method that changes its object returns the new one, and one that may panic returns a `Result`,
-- with a constructor of `Panic` for each cause. The arithmetic is that of a debug build: `+`, `-`
-- and `+=` panic on overflow, `debug_assert!` is checked, shifts drop the bits that leave the word. A
-- word is a natural number; where a theorem needs that it fits its width, it says so. A fixed array
-- is a function of the index, read and written with the bounds check. The addressing width, a type
-- parameter in the code, is the argument `Addressable`; `ModeFlag` is a Boolean and `Mode1Addressing`
-- a record of its three functions.
--
-- The loops `while ticks > 0` of the timer, the sound and the clock run on fuel, two rounds more than
-- there are ticks. A counter may be 0 only before the first reload, and so each round after the first
-- takes a tick at least.
--
-- The loop of `run_ticks` runs on fuel, one instruction for each master clock period of the frame and
-- one more. An instruction takes a CPU cycle, which is 1 to 128 of those periods by the clock divider.
-- The loops over the registers of a list have as many rounds as the code has.
--
-- The digest SHA-256 of the package shaman is a parameter of `Memory.Bios.new`, the sound backend
-- is the list of the samples that it was given, and the debugger is an argument of every instruction;
-- the theorems on frames take the one that does nothing. Lines printed to the console are left out,
-- and so are serialization, formatting, the version string, and the macro that allocates arrays.
pub mod Base
pub mod Access
pub mod Irq
pub mod Dac
pub mod Timer
pub mod Lcd
pub mod Irda
pub mod Rtc
pub mod Memory
pub mod Bus
pub mod Cpu
pub mod Arm
pub mod Thumb
pub mod Run
pub mod Examples
