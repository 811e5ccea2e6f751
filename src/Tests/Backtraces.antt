-- ===== src/Tests/Backtraces.antt =====
-- A call graph of a short trace, and the theorems at concrete inputs.
use cheriplot.Graph.Lists.{list_graph}
use cheriplot.Trace.{Instruction, Value}
use cheriplot.Tests.Samples.{sample_inst, cap_operand, sample_cap}
use cheriplot.Callgraph.Backtrace.{
  CallGraph, new_call_graph, scan_calls, scan_cjr, scan_cjalr, add_call, check_depth,
}
use cheriplot.Callgraph.Simple.{IsSimple, scan_calls-IsSimple}
use cheriplot.Callgraph.Matched.{scan_cjr-scan_cjalr}
use cheriplot.Base.{◌∷◌, List, none, ◌≡◌, [], if◌then◌else◌, ◌+◌, ◌==◌, refl}
use cheriplot.Base.Errors.{Result, ◌>>=◌, ok, err, type_error, runtime_error}
use cheriplot.Parser.Defer.{operand_value}

abbrev return_inst : Instruction
return_inst = sample_inst "cjr" (cap_operand 17 ∷ []) 9

abbrev call_inst : Instruction
call_inst = sample_inst "cjalr" (cap_operand 17 ∷ cap_operand 1 ∷ []) 5

-- Two returns with their calls, and a call that did not return.
abbrev trace : List Instruction
trace = return_inst ∷ call_inst ∷ return_inst ∷ call_inst ∷ []

abbrev start : CallGraph
start = new_call_graph none

abbrev graph_of : Result (Unit {0} × CallGraph) → CallGraph → CallGraph
graph_of (ok (a, t)) s = t
graph_of (err e) s = s

abbrev scanned : CallGraph
unfolding scan_calls
scanned = graph_of (scan_calls trace start) start

scan_calls_test : scan_calls trace start ≡ ok (tt, scanned)
unfolding scan_calls scanned operand_value
scan_calls_test = refl

-- One edge with the times of both calls, the later one first.
edges_test : (scanned.graph.edges ≡ (0, 1) ∷ []) × (scanned.t_call 0 ≡ 5 ∷ 5 ∷ [])
unfolding scan_calls scanned operand_value
edges_test = (refl, refl)

-- A function that called itself: the second call of the backtrace raises.
recursion_test : scan_calls (return_inst ∷ call_inst ∷ call_inst ∷ []) start ≡ err type_error
unfolding scan_calls operand_value
recursion_test = refl

scan_calls-IsSimple_example : IsSimple scanned
scan_calls-IsSimple_example = scan_calls-IsSimple none trace scanned scan_calls_test

returned : operand_value 0 return_inst ≡ ok (Value.cap (sample_cap 0x40))
unfolding operand_value
returned = refl

target : operand_value 1 call_inst ≡ ok (Value.cap (sample_cap 0x100))
unfolding operand_value
target = refl

link : operand_value 0 call_inst ≡ ok (Value.cap (sample_cap 0x40))
unfolding operand_value
link = refl

scan_cjr-scan_cjalr_example : (scan_cjr return_inst >>= λ _. scan_cjalr call_inst) start ≡ (
    if 0x1000 + 0 == 0x1000 + 0
    then (let t = add_call (0x1000 + 0) 5 start in ok (check_depth t, t))
    else err runtime_error)
scan_cjr-scan_cjalr_example =
    scan_cjr-scan_cjalr start return_inst call_inst (sample_cap 0x40) (sample_cap 0x100)
      (sample_cap 0x40) refl refl returned target link
