-- ===== src/Tests/Parts.antt =====
-- The theorems on single operations at concrete inputs.
use cheriplot.Base.{
  [], ◌∷◌, none, some, true, false, refl, List, lookup, ℕ, ◌≡◌, get_elem?, length, ◌<◌, set, arith,
  ◌≢◌, if◌then◌else◌, leb, ◌&&◌, ltb, ◌-◌, Option,
}
use cheriplot.Graph.Lists.{list_graph}
use cheriplot.Model.Manager.{EdgeOperation}
use cheriplot.Parser.Worker.{Worker}
use cheriplot.Parser.FirstSeen.{
  accesses, Access, first_load, perform_all, Agree, load_new, accesses-initial_map,
  accesses-vertex_map, store_at, load_known, clear_at,
}
use cheriplot.Parser.RegisterSet.{set_reg, get_reg}
use cheriplot.Parser.Frames.{make_call, make_return}
use cheriplot.Parser.Syscall.{enter_exception, leave_exception}
use cheriplot.Tests.Samples.{sample_entry, small_worker, core_of, end_of_run, sample_regs}
use cheriplot.Model.ActiveMemory.{Call, add_events, live_row, add_events-active_memory}
use cheriplot.Parser.Initial.{new_core, new_pgm}
use cheriplot.Parser.State.{py_index, Core}
use cheriplot.Base.Errors.{ok, err, key_error}
use cheriplot.Base.Int.{pos}
use cheriplot.Model.Vertex.{fresh_data, has_active_memory}
use cheriplot.Parser.CallStack.{make_return-make_call}
use cheriplot.Parser.Registers.{set_reg-reg_nodes}
use cheriplot.Parser.Exceptions.{leave_exception-enter_exception}
use cheriplot.Parser.Clear.{clear_loop, high_register, mask_bit}
use cheriplot.Parser.Cleared.{clear_loop-reg_nodes}
use cheriplot.Model.EventType

-- Two stores at 0x20, and a store at 0x40 that is deleted.
abbrev sample_calls : List Call
sample_calls =
    record { time = 1; addr = 0x20; is_kernel = false; type = EventType.store }
    ∷ record { time = 2; addr = 0x40; is_kernel = true; type = EventType.store }
    ∷ record { time = 3; addr = 0x40; is_kernel = true; type = EventType.delete }
    ∷ record { time = 4; addr = 0x20; is_kernel = false; type = EventType.store }
    ∷ []

add_events-active_memory_example :
    lookup 0x20 (add_events fresh_data sample_calls).active_memory
    ≡ live_row (add_events fresh_data sample_calls).events 0 0x20 none
add_events-active_memory_example = add_events-active_memory sample_calls 0x20

abbrev sample_accesses : List Access
sample_accesses =
    load_new 8 70 ∷ store_at 8 71 ∷ load_known 8 ∷ load_new 8 72 ∷ load_new 16 73 ∷ clear_at 16 ∷ []

abbrev accessed : Core
unfolding accesses new_core
accessed = core_of (accesses sample_accesses (new_core new_pgm)) (new_core new_pgm)

abbrev loaded : List (Option ℕ)
loaded = some 70 ∷ none ∷ some 71 ∷ some 72 ∷ some 73 ∷ none ∷ []

accesses_test : accesses sample_accesses (new_core new_pgm) ≡ ok (loaded, accessed)
unfolding accesses new_core accessed
accesses_test = refl

-- A removal where nothing is stored.
clear_test_missing : accesses (clear_at 8 ∷ []) (new_core new_pgm) ≡ err key_error
unfolding accesses new_core
clear_test_missing = refl

-- A vertex that is loaded behind a store is in the initial map.
stored_test : first_load 8 (store_at 8 71 ∷ load_new 8 72 ∷ []) ≡ some 72
unfolding first_load
stored_test = refl

accesses-initial_map_example : lookup 8 accessed.initial_map ≡ first_load 8 sample_accesses
accesses-initial_map_example = accesses-initial_map sample_accesses loaded accessed 8 accesses_test

accesses-vertex_map_example :
    Agree (accesses sample_accesses (new_core new_pgm)) (perform_all sample_accesses (λ a. none))
accesses-vertex_map_example = accesses-vertex_map sample_accesses

abbrev written : Core
unfolding set_reg new_core
written = core_of (set_reg (pos 3) none 5 (new_core new_pgm)) (new_core new_pgm)

set_reg_test : set_reg (pos 3) none 5 (new_core new_pgm) ≡ ok (tt, written)
unfolding set_reg new_core written py_index has_active_memory
set_reg_test = refl

set_reg-reg_nodes_example :
    (n : ℕ) × (py_index (pos 3) (length (new_core new_pgm).reg_nodes) ≡ some n)
    × (written.reg_nodes ≡ set (new_core new_pgm).reg_nodes n none)
set_reg-reg_nodes_example = set_reg-reg_nodes (pos 3) none 5 (new_core new_pgm) written set_reg_test

abbrev called : Worker
unfolding make_call
called =
    end_of_run
      (make_call (sample_entry 7) sample_regs (some (pos 0x2000)) (some (pos 0x1020))
        EdgeOperation.call small_worker)
      small_worker

abbrev returned : Worker
unfolding make_return called
returned = end_of_run (make_return (sample_entry 9) sample_regs called) called

call_test :
    make_call
      (sample_entry 7)
      sample_regs
      (some (pos 0x2000))
      (some (pos 0x1020))
      EdgeOperation.call
      small_worker
    ≡ ok (tt, called)
unfolding make_call called
call_test = refl

return_test :
    make_return (sample_entry 9) sample_regs (record called { core = called.core })
    ≡ ok (tt, returned)
unfolding make_return make_call called returned
return_test = refl

old_root : small_worker.calls.root < list_graph.num_vertices small_worker.core.pgm.graph
old_root = omega arith

make_return-make_call_example :
    (returned.calls.call_stack ≡ small_worker.calls.call_stack)
    × (returned.calls.root ≡ small_worker.calls.root)
make_return-make_call_example =
    make_return-make_call (sample_entry 7) (sample_entry 9) sample_regs sample_regs
      (some (pos 0x2000)) (some (pos 0x1020)) EdgeOperation.call small_worker called returned
      called.core old_root call_test return_test

abbrev entered : Core
unfolding enter_exception new_core
entered = core_of (enter_exception 5 (new_core new_pgm)) (new_core new_pgm)

abbrev left : Core
unfolding leave_exception entered
left = core_of (leave_exception 6 entered) entered

enter_test : enter_exception 5 (new_core new_pgm) ≡ ok (tt, entered)
unfolding enter_exception new_core entered py_index has_active_memory get_reg set_reg
enter_test = refl

leave_test : leave_exception 6 entered ≡ ok (tt, left)
unfolding leave_exception enter_exception new_core entered left py_index has_active_memory get_reg
    set_reg
leave_test = refl

leave_exception-enter_exception_example :
    (get_elem? left.reg_nodes 64 ≡ get_elem? (new_core new_pgm).reg_nodes 64)
    × (get_elem? left.reg_nodes 63 ≡ get_elem? (new_core new_pgm).reg_nodes 64)
    × ((i : ℕ)
        → i ≢ 63
        → i ≢ 64
        → get_elem? left.reg_nodes i ≡ get_elem? (new_core new_pgm).reg_nodes i)
leave_exception-enter_exception_example =
    leave_exception-enter_exception 5 6 (new_core new_pgm) entered left enter_test leave_test

-- The mask 3 clears the registers 16 and 17.
abbrev cleared : Core
unfolding clear_loop new_core
cleared = core_of (clear_loop 16 0 high_register (pos 3) 5 (new_core new_pgm)) (new_core new_pgm)

clear_test : clear_loop 16 0 high_register (pos 3) 5 (new_core new_pgm) ≡ ok (tt, cleared)
unfolding clear_loop new_core cleared mask_bit set_reg py_index has_active_memory
clear_test = refl

clear_loop-reg_nodes_example : get_elem? cleared.reg_nodes 17 ≡ (
    if leb 16 17 && (ltb 17 32 && mask_bit (pos 3) (17 - 16))
    then some none
    else get_elem? (new_core new_pgm).reg_nodes 17)
clear_loop-reg_nodes_example =
    clear_loop-reg_nodes (pos 3) 5 (new_core new_pgm) cleared clear_test 17
