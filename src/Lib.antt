-- ===== src/Lib.antt =====
-- The core of the RP2040 simulator: the Cortex-M0+ core with its memory and its exceptions, the
-- programmable I/O blocks, the peripherals behind the bus, and the UF2 loader.
--
-- Parts and files (sources are named from the repository's root):
--
--   Base             numbers, lists, words of fixed width, their bits, integers, accumulators
--   Core.Registers   src/core/registers.h, registers.cpp: the register file, the banked stack
--                    pointers, the status words and the conditions
--   Core.Alu         src/core/alu.cpp: add_with_carry and shift_c
--   Core.Bus         src/core/bus.h: the results of an access, and the interface of a peripheral
--   Core.Memory      src/core/memory.h, memory.cpp: the address decoder, scalar access with the
--                    XOR, SET and CLR aliases, watchpoints, the backdoor, peripheral attachment
--   Core.Thumb       include/thumb_isa.h, src/core/thumb_decode.cpp: the instruction decoder
--   Core.Timing      src/core/timing.cpp: the cycles of an instruction
--   Core.Cpu         include/exceptions.h, src/core/cpu.h, cpu.cpp: priorities (Cpu), data processing
--                    (Data), loads, stores and branches (LoadStore), exception entry and return
--                    (Exceptions), the other instructions (Execute), and reset and step (Step, Sleep)
--   Pio.Fifo         src/pio/pio_fifo.h
--   Pio.Decode       include/pio_isa.h, src/pio/pio_decode.cpp
--   Pio.StateMachine src/pio/state_machine.h, state_machine.cpp: exec (Exec) and tick (Tick)
--   Pio.Block        src/pio/pio_block.h, pio_block.cpp: four state machines and their dividers
--   Pio.Registers    src/pio/pio_registers.h, pio_registers.cpp: the block behind the bus
--   Core.Interrupts  src/core/interrupt_controller.h: lines from a peripheral to the cores
--   Core.Scs         src/core/scs.h, scs.cpp: SysTick (SysTick), NVIC (Nvic) and the other registers
--   Core.Atomic      src/core/atomic_peripheral.h: the XOR, SET and CLR aliases of a register block
--   Peripherals      src/peripherals: gpio (Gpio), timer (Timer), watchdog (Watchdog), sio (Sio), pwm
--                    (Pwm), uart (Uart), resets (Resets), padsbank0 (Pads),
--                    iobank0 (IoBank), rtc (Rtc), adc (Adc), dma (Dma), spi (Spi), i2c (I2c), clocks
--                    (Xosc, Rosc, Pll, Clocks), clock_tree (ClockTree), usb (Usb), and the
--                    loop by which clocks become ticks (Pacing)
--   Loaders          src/loaders/uf2_loader.h, uf2_loader.cpp (Uf2)
--
-- How state is modelled. A class is a record, and a method is a function from the record to the
-- record. The core runs on `Machine D`: the registers, the memory, the exception state of the core
-- and `D`, all that stands behind the bus. A method with early returns is a computation `M D A`,
-- which ends with a value (`done`) or with a status (`stop`) and keeps the state it reached. The
-- three byte vectors of the memory are functions from the offset, read and written only where
-- `backing` has found the access inside a region. Peripherals are the parameter `Devices`, one pair
-- of functions on the shared state, and the System Control Space, the sibling core and the event
-- line are the fields of `Wiring`; a peripheral does not touch the register file, so the reset that
-- a write to AIRCR asks for is outside the model. A 32-bit number is a number with its wrap-around
-- written out, and a branch offset is its 32-bit pattern. `get` and `set` of the register file
-- assert n < 16, which the decoder grants.
--
-- The cores that a peripheral interrupts are a function from their numbers to the exception state of a
-- core, `Cores`, and a peripheral holds it together with its own registers; so does the System Control
-- Space. A callback that leaves a component is an output of the model: the reset that the watchdog or a
-- write to AIRCR asks for, and the bytes that the UART has sent. A register block with aliases is an
-- instance of the interface `Registers`, and a register that reads back what is written to it obeys the
-- law `Storage`.
--
-- The DMA controller holds the memory and the state of the devices behind the bus, and moves its
-- elements through the bus path of the memory; the controller itself is not among those devices, so a
-- channel that writes the registers of the DMA is outside the model. The slave that an I2C controller
-- is wired to, and the callback of an SPI controller, are functions on a state of their own, which the
-- controller threads through its commands and frames.
--
-- A PIO state machine holds the GPIO and the IRQ register of its block as fields, and the block
-- threads them through its four machines in order. The pointers that the constructor of a block
-- sets are never null here.
--
-- Loops and fuel. A loop that takes a period off an accumulator runs on the accumulator as fuel,
-- which is enough where the period is not 0. popcount16 has 16 rounds, one for each bit, and the
-- search for a pending exception 40, for the exceptions 2 to 41. A trigger of a DMA channel that
-- chains through null transfers recurs on the 13 that chain_depth_ allows inside each other, and a
-- UF2 image on its blocks. `exec` of a PIO state machine calls itself for injected instructions
-- and runs on fuel; `none` is fuel that ran out. An instruction that injects nothing needs one
-- unit, and there are instructions for which no fuel is enough.
--
-- Not modelled: SYSINFO and the stubs, and the simulator's step that advances all peripherals;
-- the PIO assembler and disassembler, the ELF loader, the reading of files, the debuggers, the
-- displays, the command line, the lab server and the web front end, which are text, file or network
-- processing around the core; the conversions of enumerators to text.
pub mod Base
pub mod Core
pub mod Loaders
pub mod Peripherals
pub mod Pio
