-- ===== src/Ingestion/Execution.antt =====
-- `execute` of app/ingestion/engine/engine.py: the nodes run in their order, each leaves a log. The
-- condition, the node's work and the node's output are parameters: `W` is the part of the context
-- that they read and change, which holds neither the logs nor the error.
pub mod Logs
use rag_agent.Prelude.{ℕ, String, Bool, true, false, Option, none, some, List, [], ◌∷◌, ◌++◌}
use rag_agent.Ingestion.Pipeline.{
  NodeType, NodeConfig, PipelineError, Result, ok, raised, ordered_nodes,
}

pub data Status : Type 0 where
  succeeded skipped failed : Status

-- the output is `{}` where the engine gives none
pub record NodeLog (O : Type 0) : Type 0 where
  pub node_id : String
  pub node_type : NodeType
  pub status : Status
  pub duration_ms : ℕ
  pub message : String
  pub error : Option String
  pub output : Option O

pub record Context (W O : Type 0) : Type 0 where
  pub content : W
  pub error : Option String
  pub logs : List (NodeLog O)

-- How a node's work ends: with its message, an `Exception`, or `CancelledError`.
pub data Work : Type 0 where
  message : String → Work
  exception : String → Work
  cancelled : Work

-- How `execute` ends: with its answer, with the `ClientException` of `ordered_nodes`, or with what
-- it does not catch: a raise of a condition, and a cancellation.
pub data Ended : Type 0 where
  completed stopped : Ended
  rejected : PipelineError → Ended
  escaped : Ended

module _ {W O : Type 0} where
  abbrev pub add_log : NodeLog O → Context W O → Context W O
  add_log l c = record c { logs = c.logs ++ l ∷ [] }

module _ {S C O : Type 0} where
  abbrev pub skipped_log : NodeConfig S C → NodeLog O
  skipped_log n = record {
    node_id = n.node_id;
    node_type = n.node_type;
    status = skipped;
    duration_ms = 0;
    message = "Skipped: 条件未满足";
    error = none;
    output = none;
  }

module _ {S C W O : Type 0} where
  module _ (evaluate : C → Context W O → Option Bool)
      (execute_node : NodeConfig S C → W → Work × ℕ × W) (output_of : NodeConfig S C → W → O) where
    -- what follows the node's work, `k` being the rest of the loop
    unfoldable pub after_node :
        (Context W O → Ended × Context W O)
        → NodeConfig S C
        → Work
        → ℕ
        → Context W O
        → Ended × Context W O
    after_node k n (message m) elapsed c = k (
        add_log
          (record {
            node_id = n.node_id;
            node_type = n.node_type;
            status = succeeded;
            duration_ms = elapsed;
            message = m;
            error = none;
            output = some (output_of n c.content);
          })
          c)
    after_node k n (exception e) elapsed c = (
      stopped,
      add_log
          (record {
            node_id = n.node_id;
            node_type = n.node_type;
            status = failed;
            duration_ms = elapsed;
            message = "节点执行失败";
            error = some e;
            output = some (output_of n c.content);
          })
          (record c { error = some e }),
    )
    after_node k n cancelled elapsed c = (escaped, c)

    -- one round of the loop, for the condition's value
    unfoldable pub run_node :
        (Context W O → Ended × Context W O)
        → NodeConfig S C
        → Option Bool
        → Context W O
        → Ended × Context W O
    run_node k n none c = (escaped, c)
    run_node k n (some false) c = k (add_log (skipped_log n) c)
    run_node k n (some true) c =
        let (work, elapsed, content) = execute_node n c.content in
        after_node k n work elapsed (record c { content = content })

    unfoldable pub run_nodes : List (NodeConfig S C) → Context W O → Ended × Context W O
    run_nodes [] c = (completed, c)
    run_nodes (n ∷ ns) c = run_node (run_nodes ns) n (evaluate n.condition c) c

    -- `none` is a loop of `ordered_nodes` that has not ended
    unfoldable pub execute_ordered :
        Option (Result (List (NodeConfig S C))) → Context W O → Option (Ended × Context W O)
    execute_ordered none c = none
    execute_ordered (some (raised e)) c = some (rejected e, c)
    execute_ordered (some (ok nodes)) c = some (run_nodes nodes c)

    unfoldable pub execute : List (NodeConfig S C) → Context W O → Option (Ended × Context W O)
    execute nodes c = execute_ordered (ordered_nodes nodes) c
