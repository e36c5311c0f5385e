-- ===== src/Ingestion/Execution/Logs.antt =====
-- The logs of an execution.
use rag_agent.Prelude.{
  ℕ, ◌≡◌, ◌≢◌, refl, sym, ap, ◌∙◌, Bool, true, false, Option, none, some, List, [], ◌∷◌, ◌++◌,
  append_assoc, append-nil,
}
use mathlib.Core.List.{Perm}
use rag_agent.Ingestion.Pipeline.Walk.{ordered_nodes-total}
use rag_agent.Ingestion.Pipeline.{NodeConfig, PipelineError, Result, ok, raised, ordered_nodes}
use rag_agent.Ingestion.Pipeline.Visits.{Chain}
use rag_agent.Ingestion.Pipeline.Order.{ordered_nodes-Chain}
use rag_agent.Ingestion.Execution.{
  Status, succeeded, skipped, failed, NodeLog, Context, Work, message, exception, cancelled, Ended,
  completed, stopped, rejected, escaped, add_log, skipped_log, after_node, run_node, run_nodes,
  execute_ordered, execute,
}

-- Where a run of nodes may end without a further log.
abbrev pub Unlogged : {S C : Type 0} → Ended → List (NodeConfig S C) → Type 0
Unlogged completed ns = ns ≡ []
Unlogged escaped ns = Unit
Unlogged stopped ns = ⊥
Unlogged (rejected x) ns = ⊥

-- What comes behind a log: nothing behind that of a failure, and the rest behind another.
abbrev pub Behind : {O : Type 0} → Status → Ended → List (NodeLog O) → Type 0 → Type 0
Behind failed e ls Rest = (e ≡ stopped) × (ls ≡ [])
Behind succeeded e ls Rest = Rest
Behind skipped e ls Rest = Rest

-- What is logged for nodes that run until `e`: a log for each node in order, each `succeeded` or
-- `skipped` but the last one of a run that stopped, which is `failed`. An escape leaves no log.
abbrev pub Logged : {S C O : Type 0} → Ended → List (NodeConfig S C) → List (NodeLog O) → Type 0
Logged e ns [] = Unlogged e ns
Logged e [] (l ∷ ls) = ⊥
Logged e (n ∷ ns) (l ∷ ls) = (l.node_id ≡ n.node_id) × Behind l.status e ls (Logged e ns ls)

Behind-rest :
    {O : Type 0} (s : Status) (e : Ended) (ls : List (NodeLog O)) (Rest : Type 0)
    → s ≢ failed
    → Rest
    → Behind s e ls Rest
Behind-rest failed e ls Rest q h = absurd (q refl)
Behind-rest succeeded e ls Rest q h = h
Behind-rest skipped e ls Rest q h = h

-- The logs that a run of the nodes adds.
pub record Run {S C W O : Type 0} (ns : List (NodeConfig S C)) (c : Context W O)
    (r : Ended × Context W O) : Type 0 where
  pub added : List (NodeLog O)
  pub all_logs : r.1.logs ≡ c.logs ++ added
  pub logged : Logged r.0 ns added

module _ {S C W O : Type 0} where
  nothing_added :
      {e : Ended} {ns : List (NodeConfig S C)} (c : Context W O) {w : W}
      → Logged {O = O} e ns []
      → Run ns c (e, record c { content = w })
  nothing_added c h = record { added = []; all_logs = sym (append-nil c.logs); logged = h }

  -- a log of a node that did not fail, before the logs of the rest
  Run-step :
      (n : NodeConfig S C) (ns : List (NodeConfig S C)) (c : Context W O) (l : NodeLog O) {w : W}
      {r : Ended × Context W O}
      → l.node_id ≡ n.node_id
      → l.status ≢ failed
      → Run ns (add_log l (record c { content = w })) r
      → Run (n ∷ ns) c r
  Run-step n ns c l {r = r} p q h = record {
    added = l ∷ h.added;
    all_logs = h.all_logs ∙ append_assoc c.logs (l ∷ []) h.added;
    logged = (p, Behind-rest l.status r.0 h.added (Logged r.0 ns h.added) q h.logged);
  }

  module _ (evaluate : C → Context W O → Option Bool)
      (execute_node : NodeConfig S C → W → Work × ℕ × W) (output_of : NodeConfig S C → W → O) where
    after_node-Run :
        (n : NodeConfig S C) (ns : List (NodeConfig S C)) (c : Context W O) (w : W) (work : Work)
        (elapsed : ℕ)
        → ((c : Context W O) → Run ns c (run_nodes evaluate execute_node output_of ns c))
        → Run (n ∷ ns) c (
            after_node evaluate execute_node output_of
              (run_nodes evaluate execute_node output_of ns)
              n
              work
              elapsed
              (record c { content = w }))
    unfolding after_node
    after_node-Run n ns c w (message m) elapsed k = Run-step n ns c _ refl (λ e. cc) (k _)
    after_node-Run n ns c w (exception x) elapsed k = record {
      added = _;
      all_logs = refl;
      logged = (refl, (refl, refl));
    }
    after_node-Run n ns c w cancelled elapsed k = nothing_added c tt

    run_node-Run :
        (n : NodeConfig S C) (ns : List (NodeConfig S C)) (c : Context W O) (holds : Option Bool)
        → ((c : Context W O) → Run ns c (run_nodes evaluate execute_node output_of ns c))
        → Run (n ∷ ns) c (
            run_node evaluate execute_node output_of
              (run_nodes evaluate execute_node output_of ns)
              n
              holds
              c)
    unfolding run_node
    run_node-Run n ns c none k = nothing_added c tt
    run_node-Run n ns c (some false) k = Run-step n ns c (skipped_log n) refl (λ e. cc) (k _)
    run_node-Run n ns c (some true) k =
        let x = execute_node n c.content in after_node-Run n ns c x.2 x.0 x.1 k

    pub run_nodes-Run :
        (ns : List (NodeConfig S C)) (c : Context W O)
        → Run ns c (run_nodes evaluate execute_node output_of ns c)
    unfolding run_nodes
    run_nodes-Run [] c = nothing_added c refl
    run_nodes-Run (n ∷ ns) c = run_node-Run n ns c (evaluate n.condition c) (run_nodes-Run ns)

module _ {S C W O : Type 0} (evaluate : C → Context W O → Option Bool)
    (execute_node : NodeConfig S C → W → Work × ℕ × W) (output_of : NodeConfig S C → W → O) where
  -- How `execute` may end on a list of nodes: refused, with the context as it was, or after a run
  -- of the nodes in the order of their links.
  pub data IsExecuted (nodes : List (NodeConfig S C)) (c : Context W O) : Type 0 where
    refused :
        (e : PipelineError)
        → ordered_nodes nodes ≡ some (raised e)
        → execute evaluate execute_node output_of nodes c ≡ some (rejected e, c)
        → IsExecuted nodes c
    ran :
        (out : List (NodeConfig S C)) (r : Ended × Context W O)
        → Perm out nodes
        → Chain out
        → execute evaluate execute_node output_of nodes c ≡ some r
        → Run out c r
        → IsExecuted nodes c

  -- `execute` ends on every list of nodes. It refuses the list and leaves the context as it was, or
  -- it runs the nodes in the order of their links and adds one log for each, in that order: a
  -- completed run has logged every node, and none as failed; a stopped run ends with the log of the
  -- node that failed, and has logged none behind it.
  pub execute_logs : (nodes : List (NodeConfig S C)) (c : Context W O) → IsExecuted nodes c
  execute_logs nodes c = step (ordered_nodes nodes) refl
    where
      step :
          (o : Option (Result (List (NodeConfig S C))))
          → ordered_nodes nodes ≡ o
          → IsExecuted nodes c
      step none e = absurd (ordered_nodes-total nodes e)
      step (some (raised x)) e = refused x e (
          unfold execute execute_ordered in
          ap (λ o. execute_ordered evaluate execute_node output_of o c) e)
      step (some (ok out)) e =
          let o = ordered_nodes-Chain nodes out e in
          ran out (run_nodes evaluate execute_node output_of out c) o.0 o.2
            (unfold execute execute_ordered in
              ap (λ o. execute_ordered evaluate execute_node output_of o c) e)
            (run_nodes-Run evaluate execute_node output_of out c)
