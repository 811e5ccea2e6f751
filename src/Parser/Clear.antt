-- ===== src/Parser/Clear.antt =====
-- `scan_cclearhi` and `scan_cclearlo` of PointerProvenanceSubparser
-- (provenance/parser/sub_mips.py), which clear registers by a bit mask.
use cheriplot.Base.{ℕ, zero, suc, ◌+◌, ◌/◌, ◌%◌, ◌^◌, Bool, none, ◌==◌, if◌then◌else◌}
use cheriplot.Base.Int.{ℤ, pos, negsuc}
use cheriplot.Base.Errors.{Result, ok, err, type_error, M, pure, of_result, when, ◌>>=◌, ◌>>◌}
use cheriplot.Graph.{GraphTool}
use cheriplot.Trace.{Instruction, Value, nothing, num, cap, vertex}
use cheriplot.Parser.State.{Core}
use cheriplot.Parser.RegisterSet.{set_reg}
use cheriplot.Parser.Worker.{Worker, lift}
use cheriplot.Parser.Defer.{operand_value, unless_paused}

-- `(mask >> bit) & 1`, as a test.
unfoldable pub mask_bit : ℤ → ℕ → Bool
mask_bit (pos n) bit = n / 2 ^ bit % 2 == 1
mask_bit (negsuc n) bit = n / 2 ^ bit % 2 == 0

abbrev pub as_mask : Value → Result ℤ
as_mask (num n) = ok n
as_mask nothing = err type_error
as_mask (cap r) = err type_error
as_mask (vertex v) = err type_error

abbrev pub high_register : ℕ → ℤ
high_register bit = pos (bit + 16)

abbrev pub low_register : ℕ → ℤ
low_register bit = if bit == 0 then pos 32 else pos bit

module _ ⦃gt : GraphTool⦄ where
  -- The loop `for bit in range(16)`, with `n` rounds left from `bit` on. `reg bit` is the register.
  unfoldable pub clear_loop : ℕ → ℕ → (ℕ → ℤ) → ℤ → ℕ → M Core (Unit {0})
  clear_loop zero bit reg mask time = pure tt
  clear_loop (suc n) bit reg mask time = do
    when (mask_bit mask bit) (set_reg (reg bit) none time)
    clear_loop n (bit + 1) reg mask time

  unfoldable pub scan_cclearhi : Instruction → M Worker (Unit {0})
  unfolding clear_loop mask_bit
  scan_cclearhi inst = unless_paused (
      lift (do
        mask ← of_result (operand_value 0 inst)
        bits ← of_result (as_mask mask)
        clear_loop 16 0 high_register bits inst.entry.cycles))

  unfoldable pub scan_cclearlo : Instruction → M Worker (Unit {0})
  unfolding clear_loop mask_bit
  scan_cclearlo inst = unless_paused (
      lift (do
        mask ← of_result (operand_value 0 inst)
        bits ← of_result (as_mask mask)
        clear_loop 16 0 low_register bits inst.entry.cycles))
