-- ===== src/Examples/Frames.antt =====
-- A program that is one Thumb branch to itself, over a frame of 200 master clock periods.
use pksx.Base.{◌%◌, ◌≤◌, ◌<◌, refl, false, arith, ◌==◌, if◌then◌else◌, ok, panic, asr}
use pksx.Cpu.{Cpu}
use pksx.Cpu.Machine.{Machine, no_debugger}
use pksx.Memory.Ram.{Ram}
use pksx.Run.{run_loop}
use pksx.Run.Frames.{run_loop-frame_ticks}
use pksx.Examples.Memories.{console}
use pksx.Examples.Processor.{program}

abbrev endless : Machine (Unit {0})
endless = record {
  debugger = tt;
  cpu = record program {
    registers = λ _. 0x102;
    next_pc = 0x100;
    inter = record console {
      flash = record console.flash { bios_at_0 = false };
      ram = record { bytes = λ a. if a % 2 == 0 then 0xfe else 0xe7 };
    };
  };
}

abbrev framed : Machine (Unit {0})
framed = elim (run_loop no_debugger 3 200 endless) [ ok s ↦ s | panic e ↦ endless ]

run_loop-frame_ticks_example :
    (200 ≤ framed.cpu.inter.frame_ticks)
    × (framed.cpu.inter.frame_ticks < 328)
    × (framed.cpu.inter.cpu_clk_div ≤ 7)
unfolding run_loop pksx.Run.run_next_instruction pksx.Cpu.check_interrupts pksx.Bus.tick
    pksx.Rtc.tick pksx.Dac.tick pksx.Bus.tick_timer pksx.Timer.tick pksx.Irq.pending
    pksx.Run.run_thumb pksx.Bus.load pksx.Memory.Ram.load pksx.Memory.Bytes.load_bytes
    pksx.Thumb.Table.execute pksx.Thumb.Opcodes.handler pksx.Thumb.Table.opcode_lut
    pksx.Thumb.opcode pksx.Thumb.Table.table_3 pksx.Thumb.Branches.op38x_b pksx.Thumb.signed_imm11
    asr pksx.Cpu.set_pc pksx.Cpu.reg
run_loop-frame_ticks_example =
    run_loop-frame_ticks 3 200 endless framed (omega arith) (omega arith) refl
