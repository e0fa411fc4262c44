-- ===== src/Tests/Walks.antt =====
-- crates/rb-query/src/graph/traversal: a search in a graph with a cycle and a call by instantiation.
use rustacean.Common.{
  String, ◌≡◌, refl, ◌↔◌, ◌⊎◌, true, false, Option, none, some, List, [], ◌∷◌, map, arith,
  if◌then◌else◌,
}
use rustacean.Traversal.Types.{direct, monomorph, RawEdge, TraversalOptions, Row, ok, bare}
use rustacean.Traversal.Hop.{Database, Hop, take_rows, one_hop, fetch_root_node}
use rustacean.Traversal.Fetch.{
  take_caller, take_callers, callers_loop, fetch_callers, visit_callee, take_callee, take_callees,
  callees_loop, fetch_callees,
}
use rustacean.Traversal.Paginate.{TraversalResult, strip, see, see_edges, paginate}
use rustacean.Traversal.Direction.{callers, callees, hop_of}
use rustacean.Traversal.Shortest.{Searched, fetch_callers-Searched, fetch_callees-Searched}
use rustacean.Traversal.Cycles.{Meets, hop_cycles_detected_iff}
use rustacean.Traversal.Cursors.{follow_from, follow_from-paginate}
use rustacean.Traversal.Answers.{IsOk, fetches-IsOk}
use rustacean.Traversal.PageNodes.{Listed, Endpoint, paginate-Listed}
use text.Mathlib.Text.{◌==◌}

abbrev row : String → Option String → Row
row fqn dispatch = record {
  fqn = some fqn;
  name = none;
  kind = none;
  file_path = none;
  line = none;
  dispatch = dispatch;
}

-- `main` calls `run`, `run` calls `main` and instantiates `step`.
abbrev called_by : String → List Row
called_by fqn =
    if fqn == "run"
    then row "main" none ∷ []
    else if fqn == "main"
    then row "run" (some "dynamic") ∷ []
    else []

abbrev instantiated_by : String → List Row
instantiated_by fqn = if fqn == "step" then row "run" none ∷ [] else []

abbrev calls : String → List Row
calls fqn =
    if fqn == "main"
    then row "run" none ∷ []
    else if fqn == "run"
    then row "main" (some "dynamic") ∷ []
    else []

abbrev instantiates : String → List Row
instantiates fqn = if fqn == "run" then row "step" none ∷ [] else []

abbrev db : Database
db = record {
  callers_by_calls = λ fqn. ok (called_by fqn);
  callers_by_instantiation = λ fqn. ok (instantiated_by fqn);
  callees_by_calls = λ fqn. ok (calls fqn);
  callees_by_instantiation = λ fqn. ok (instantiates fqn);
  items = λ fqn. ok [];
}

abbrev opts : TraversalOptions
opts = record { depth = 3; limit = 10; offset = 0 }

abbrev callers_of_step : TraversalResult
callers_of_step = record {
  root = bare "step";
  nodes = bare "run" ∷ bare "main" ∷ [];
  edges =
      record { from_fqn = "run"; to_fqn = "step"; depth = 1; provenance = monomorph }
      ∷ record { from_fqn = "main"; to_fqn = "run"; depth = 2; provenance = direct }
      ∷ [];
  cycles_detected = true;
  next_cursor = none;
}

run_callers : fetch_callers db "step" opts ≡ ok callers_of_step
unfolding fetch_callers callers_loop fetch_root_node one_hop take_rows take_callers take_caller
    paginate see_edges see
run_callers = refl

abbrev callees_of_main : TraversalResult
callees_of_main = record {
  root = bare "main";
  nodes = bare "run" ∷ bare "step" ∷ [];
  edges =
      record { from_fqn = "main"; to_fqn = "run"; depth = 1; provenance = direct }
      ∷ record { from_fqn = "run"; to_fqn = "step"; depth = 2; provenance = monomorph }
      ∷ [];
  cycles_detected = true;
  next_cursor = none;
}

run_callees : fetch_callees db "main" opts ≡ ok callees_of_main
unfolding fetch_callees callees_loop fetch_root_node one_hop take_rows take_callees take_callee
    visit_callee paginate see_edges see
run_callees = refl

fetch_callers-Searched_example : Searched (fetch_callers db "step") (callers db) "step" 3
fetch_callers-Searched_example = fetch_callers-Searched db "step" opts callers_of_step run_callers

fetch_callees-Searched_example : Searched (fetch_callees db "main") (callees db) "main" 3
fetch_callees-Searched_example = fetch_callees-Searched db "main" opts callees_of_main run_callees

fetches-IsOk_example : IsOk (fetch_callers db "step" opts) × IsOk (fetch_callees db "step" opts)
fetches-IsOk_example =
    fetches-IsOk db "step" opts ([], refl)
      (λ b. (called_by b, refl), λ b. (instantiated_by b, refl))
      (λ b. (calls b, refl), λ b. (instantiates b, refl))

abbrev no_hop : Hop
no_hop = record { edges = []; cycles_detected = false }

-- The hop from `main`, with `run` visited.
abbrev last_hop : Hop
last_hop = record { edges = []; cycles_detected = true }

run_hop : hop_of (callers db) 3 ("main" ∷ "run" ∷ "step" ∷ []) ("main" ∷ []) no_hop ≡ ok last_hop
unfolding one_hop take_rows
run_hop = refl

hop_cycles_detected_iff_example : (last_hop.cycles_detected ≡ true) ↔ (
    (no_hop.cycles_detected ≡ true)
    ⊎ Meets (callers db) ("main" ∷ "run" ∷ "step" ∷ []) ("main" ∷ []))
hop_cycles_detected_iff_example =
    hop_cycles_detected_iff (callers db) 3 ("main" ∷ "run" ∷ "step" ∷ []) ("main" ∷ []) no_hop
      last_hop run_hop

abbrev raw : String → String → RawEdge
raw a b = record { from_fqn = a; to_fqn = b; depth = 1; provenance = direct; from_node = bare a }

abbrev fan : List RawEdge
fan = raw "a" "r" ∷ raw "b" "r" ∷ raw "c" "r" ∷ []

follow_from-paginate_example :
    follow_from
      (bare "r")
      fan
      []
      2
      2
      false
      3
      (paginate (bare "r") fan [] (record { depth = 2; limit = 2; offset = 0 }) false)
    ≡ map strip fan
follow_from-paginate_example =
    follow_from-paginate (bare "r") fan [] 2 2 false 3 (omega arith) (omega arith)

paginate-Listed_example :
    (let r = paginate (bare "r") fan [] opts true in
      Listed "r" [] (λ a. Endpoint a r.edges) r.nodes)
paginate-Listed_example = paginate-Listed (bare "r") fan [] opts true
