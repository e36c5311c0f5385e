-- ===== src/Ingestion/Pipeline.antt =====
-- `ordered_nodes` of app/ingestion/engine/engine.py: the checks that a pipeline's nodes are one
-- chain, and its order. The node's class is that of app/ingestion/schemas.py; its settings and its
-- condition have types of their own.
pub mod Walk
pub mod Rearrange
pub mod Visits
pub mod Order
use rag_agent.Prelude.{
  ℕ, zero, suc, String, str_eq, Bool, true, false, not, Option, none, some, List, [], ◌∷◌, ◌++◌,
  length, contains, ◌==◌, if◌then◌else◌,
}
use rag_agent.Dict

pub data NodeType : Type 0 where
  fetcher parser enhancer chunker enricher indexer : NodeType

pub record NodeConfig (S C : Type 0) : Type 0 where
  pub node_id : String
  pub node_type : NodeType
  pub settings : S
  pub condition : C
  pub next_node_id : Option String

-- the `ClientException`s
pub data PipelineError : Type 0 where
  no_nodes : PipelineError
  duplicate_id : PipelineError
  missing_next : String → PipelineError
  no_start : PipelineError
  many_starts : PipelineError
  cycle : String → PipelineError
  unreachable : PipelineError

pub data Result (A : Type 0) : Type 0 where
  ok : A → Result A
  raised : PipelineError → Result A

module _ {S C : Type 0} where
  -- `if node.next_node_id`: neither `None` nor the empty text
  abbrev pub next_of : NodeConfig S C → Option String
  next_of n = elim n.next_node_id [ none ↦ none | some t ↦ if str_eq t "" then none else some t ]

  abbrev pub ids : List (NodeConfig S C) → List String
  ids [] = []
  ids (n ∷ ns) = n.node_id ∷ ids ns

  -- `{node.node_id: node for node in nodes}`, on what the comprehension has so far
  unfoldable pub index :
      List (NodeConfig S C) → List (String × NodeConfig S C) → List (String × NodeConfig S C)
  index [] d = d
  index (n ∷ ns) d = index ns (Dict.put n.node_id n d)

  abbrev pub by_id : List (NodeConfig S C) → List (String × NodeConfig S C)
  by_id nodes = index nodes []

  -- the loop that fills `referenced`
  unfoldable pub collect :
      List (String × NodeConfig S C) → List (NodeConfig S C) → List String → Result (List String)
  collect d [] refs = ok refs
  collect d (n ∷ ns) refs = elim (next_of n) [
    | none ↦ collect d ns refs
    | some t ↦ elim (Dict.get t d) [
      | none ↦ raised (missing_next t)
      | some _ ↦ collect d ns (t ∷ refs)
    ]
  ]

  -- `starts`
  unfoldable pub starts : List String → List (NodeConfig S C) → List (NodeConfig S C)
  starts refs [] = []
  starts refs (n ∷ ns) =
      let rest = starts refs ns in if contains n.node_id refs then rest else n ∷ rest

  abbrev pub get_next : List (String × NodeConfig S C) → Option String → Option (NodeConfig S C)
  get_next d none = none
  get_next d (some t) = Dict.get t d

  -- the loop `while current`, on fuel; `none` is a loop that has not ended
  unfoldable pub walk :
      List (String × NodeConfig S C)
      → ℕ
      → Option (NodeConfig S C)
      → List String
      → List (NodeConfig S C)
      → Option (Result (List (NodeConfig S C)))
  walk d fuel none seen ordered = some (ok ordered)
  walk d zero (some n) seen ordered = none
  walk d (suc fuel) (some n) seen ordered = elim (contains n.node_id seen) [
    | true ↦ some (raised (cycle n.node_id))
    | false ↦ walk d fuel (get_next d (next_of n)) (n.node_id ∷ seen) (ordered ++ n ∷ [])
  ]

  -- the last test, on what the loop has given
  unfoldable pub all_reached :
      ℕ → Option (Result (List (NodeConfig S C))) → Option (Result (List (NodeConfig S C)))
  all_reached n none = none
  all_reached n (some (raised e)) = some (raised e)
  all_reached n (some (ok ordered)) =
      if length ordered == n then some (ok ordered) else some (raised unreachable)

  -- the tests on `starts` and what follows
  unfoldable pub from_starts :
      List (NodeConfig S C) → List (NodeConfig S C) → Option (Result (List (NodeConfig S C)))
  from_starts nodes [] = some (raised no_start)
  from_starts nodes (s ∷ []) =
      all_reached (length nodes) (walk (by_id nodes) (suc (length nodes)) (some s) [] [])
  from_starts nodes (s ∷ _ ∷ _) = some (raised many_starts)

  unfoldable pub from_references :
      List (NodeConfig S C) → Result (List String) → Option (Result (List (NodeConfig S C)))
  from_references nodes (raised e) = some (raised e)
  from_references nodes (ok refs) = from_starts nodes (starts refs nodes)

  unfoldable pub ordered_nodes : List (NodeConfig S C) → Option (Result (List (NodeConfig S C)))
  ordered_nodes [] = some (raised no_nodes)
  ordered_nodes (n ∷ ns) =
      if length (by_id (n ∷ ns)) == length (n ∷ ns)
      then from_references (n ∷ ns) (collect (by_id (n ∷ ns)) (n ∷ ns) [])
      else some (raised duplicate_id)
