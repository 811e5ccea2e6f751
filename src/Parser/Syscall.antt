-- ===== src/Parser/Syscall.antt =====
-- The classes SyscallSubparser and InitialStackAccessSubparser of provenance/parser/sub_mips.py.
use cheriplot.Base.{ℕ, true, some, [], ◌∷◌, if◌then◌else◌}
use cheriplot.Base.Int.{pos, ◌+ℤ◌}
use cheriplot.Base.Errors.{M, pure, gets, modify, ◌>>=◌, ◌>>◌}
use cheriplot.Graph.{GraphTool}
use cheriplot.Trace.{Instruction}
use cheriplot.Model.Cap.{of_register}
use cheriplot.Parser.State.{Core, peek_data}
use cheriplot.Parser.RegisterSet.{get_reg, set_reg, pcc, epcc, kcc}
use cheriplot.Parser.Worker.{Worker, Callback, lift}
use cheriplot.Parser.Defer.{delay_scan, unless_paused}

module _ ⦃gt : GraphTool⦄ where
  -- The registers' part of `_do_scan_exception`: epcc ← pcc, pcc ← kcc. The log message reads the
  -- data of both vertices.
  unfoldable pub enter_exception : ℕ → M Core (Unit {0})
  enter_exception time = do
    pcc_data ← peek_data (← get_reg pcc)
    kcc_data ← peek_data (← get_reg kcc)
    old ← get_reg pcc
    set_reg epcc old time
    new ← get_reg kcc
    set_reg pcc new time

  -- `_do_scan_exception`
  unfoldable pub do_scan_exception : Instruction → M Worker (Unit {0})
  unfolding enter_exception
  do_scan_exception inst = do
    modify (λ w. record w { syscall_depth = w.syscall_depth +ℤ pos 1 })
    lift (enter_exception inst.entry.cycles)

  unfoldable pub syscall_exception : Instruction → M Worker (Unit {0})
  unfolding do_scan_exception delay_scan
  syscall_exception inst = unless_paused (do
    waiting ← gets (λ w. w.exec_maybe)
    elim waiting [ [] ↦ do_scan_exception inst | k ∷ ks ↦ delay_scan (Callback.exception inst) ])

  -- pcc ← epcc
  unfoldable pub leave_exception : ℕ → M Core (Unit {0})
  leave_exception time = do
    epcc_data ← peek_data (← get_reg epcc)
    pcc_data ← peek_data (← get_reg pcc)
    old ← get_reg epcc
    set_reg pcc old time

  unfoldable pub syscall_eret : Instruction → M Worker (Unit {0})
  unfolding leave_exception
  syscall_eret inst = unless_paused (lift (leave_exception inst.entry.cycles))

  -- `InitialStackAccessSubparser.scan_eret`: a register that is not valid only gives a warning.
  unfoldable pub stack_eret : Instruction → M Worker (Unit {0})
  stack_eret inst = unless_paused (do
    seen ← gets (λ w. w.first_eret)
    if seen
        then pure tt
        else modify (λ w. record w {
          first_eret = true;
          core = record w.core {
            pgm = record w.core.pgm {
              stack = some (record (of_register (inst.regset.cap_reg 11)) {
                offset = some (inst.regset.gpr 29);
              });
            };
          };
        }))
