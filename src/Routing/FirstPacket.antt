-- ===== src/Routing/FirstPacket.antt =====
-- `ProbeStreamBridge` of app/model_runtime/chat/probe.py: the callbacks of a provider's stream are
-- buffered until the first packet has come and the bridge is committed. `commit` sets its flag and
-- then awaits one buffered action after the other. It is suspended only while an action runs, so what it
-- does before its first action has started is one operation here, and each further action is another;
-- callbacks may come between them. The downstream callback is a log of the actions that have started.
pub mod Delivery
mod Examples
use rag_agent.Prelude.{String, Bool, true, false, Option, none, some, List, [], ◌∷◌, ◌++◌}

pub data ProbeResult : Type 0 where
  success error timeout no_content : ProbeResult

pub data StreamEvent : Type 0 where
  content thinking : String → StreamEvent
  complete : StreamEvent
  failed : String → StreamEvent

pub record Bridge : Type 0 where
  pub result : Option ProbeResult
  pub error_text : Option String
  pub buffer : List StreamEvent
  pub committed : Bool
  pub downstream : List StreamEvent

abbrev pub new_bridge : Bridge
new_bridge = record {
  result = none;
  error_text = none;
  buffer = [];
  committed = false;
  downstream = [];
}

-- `_complete`: the first result stays
pub settle_result : ProbeResult → Bridge → Bridge
settle_result r b = elim b.result [ none ↦ record b { result = some r } | some _ ↦ b ]

-- `_dispatch`, and the await of what it returns
pub dispatch : StreamEvent → Bridge → Bridge
dispatch e b = elim b.committed [
  | true ↦ record b { downstream = b.downstream ++ e ∷ [] }
  | false ↦ record b { buffer = b.buffer ++ e ∷ [] }
]

pub on_content : String → Bridge → Bridge
unfolding settle_result dispatch
on_content text b = dispatch (content text) (settle_result success b)

pub on_thinking : String → Bridge → Bridge
unfolding settle_result dispatch
on_thinking text b = dispatch (thinking text) (settle_result success b)

pub on_complete : Bridge → Bridge
unfolding settle_result dispatch
on_complete b = elim b.result [ none ↦ settle_result no_content b | some _ ↦ dispatch complete b ]

pub on_error : String → Bridge → Bridge
unfolding settle_result dispatch
on_error text b = elim b.result [
  | none ↦ settle_result error (record b { error_text = some text })
  | some _ ↦ dispatch (failed text) b
]

pub discard : Bridge → Bridge
discard b = record b { buffer = [] }

replay : List StreamEvent → Bridge → Bridge
replay [] b = b
replay (e ∷ rest) b = record b { buffer = rest; downstream = b.downstream ++ e ∷ [] }

-- One round of the loop of `commit`: the next action is taken off the buffer and starts.
pub replay_one : Bridge → Bridge
unfolding replay
replay_one b = replay b.buffer b

-- `commit` up to its first suspension: the flag is set, and the first action starts.
pub begin_commit : Bridge → Bridge
unfolding replay_one
begin_commit b = replay_one (record b { committed = true })
