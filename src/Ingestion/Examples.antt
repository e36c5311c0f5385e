-- ===== src/Ingestion/Examples.antt =====
-- The theorems on pipelines at concrete nodes.
use rag_agent.Prelude.{
  ℕ, zero, suc, String, ◌≡◌, ◌≢◌, refl, Bool, true, false, Option, none, some, List, [], ◌∷◌,
  Distinct,
}
use mathlib.Core.List.{Perm}
use rag_agent.Dict.{get, put}
use rag_agent.Ingestion.Pipeline.{
  NodeConfig, fetcher, parser, indexer, cycle, ok, raised, ids, index, collect, starts, walk,
  all_reached, from_starts, from_references, ordered_nodes,
}
use rag_agent.Ingestion.Pipeline.Walk.{ordered_nodes-total}
use rag_agent.Ingestion.Pipeline.Visits.{Chain}
use rag_agent.Ingestion.Pipeline.Order.{ordered_nodes-Chain}
use rag_agent.Ingestion.Execution.{
  Context, Work, message, exception, execute, execute_ordered, run_nodes, run_node, after_node,
}
use rag_agent.Ingestion.Execution.Logs.{IsExecuted, execute_logs}

program : Unit {0}
unfolding get put index collect starts walk all_reached from_starts from_references ordered_nodes
    execute execute_ordered run_nodes run_node after_node
program = tt

abbrev Node : Type 0
Node = NodeConfig (Unit {0}) Bool

abbrev fetch : Node
fetch = record {
  node_id = "f";
  node_type = fetcher;
  settings = tt;
  condition = true;
  next_node_id = some "p";
}

abbrev parse : Node
parse = record {
  node_id = "p";
  node_type = parser;
  settings = tt;
  condition = false;
  next_node_id = some "i";
}

abbrev store : Node
store = record {
  node_id = "i";
  node_type = indexer;
  settings = tt;
  condition = true;
  next_node_id = some "";
}

abbrev back : Node
back = record {
  node_id = "i";
  node_type = indexer;
  settings = tt;
  condition = true;
  next_node_id = some "p";
}

abbrev nodes : List Node
nodes = store ∷ fetch ∷ parse ∷ []

abbrev looped : List Node
looped = back ∷ fetch ∷ parse ∷ []

looped_cycle : ordered_nodes looped ≡ some (raised (cycle "p"))
unfolding program
looped_cycle = refl

ordered_nodes-total_example : ordered_nodes looped ≢ none
ordered_nodes-total_example = ordered_nodes-total looped

in_order : ordered_nodes nodes ≡ some (ok (fetch ∷ parse ∷ store ∷ []))
unfolding program
in_order = refl

ordered_nodes-Chain_example :
    Perm (fetch ∷ parse ∷ store ∷ []) nodes
    × Distinct (ids (fetch ∷ parse ∷ store ∷ []))
    × Chain (fetch ∷ parse ∷ store ∷ [])
ordered_nodes-Chain_example = ordered_nodes-Chain nodes (fetch ∷ parse ∷ store ∷ []) in_order

-- the content counts the nodes that ran; the second one fails
abbrev holds : Bool → Context ℕ String → Option Bool
holds b c = some b

abbrev work : Node → ℕ → Work × ℕ × ℕ
work n zero = (message "ok", 5, 1)
work n (suc k) = (exception "no index", 7, suc k)

abbrev blank : Context ℕ String
blank = record { content = 0; error = none; logs = [] }

abbrev output : Node → ℕ → String
output n k = n.node_id

execute_logs_example : IsExecuted holds work output nodes blank
execute_logs_example = execute_logs holds work output nodes blank
