-- ===== src/Stream/Sender.antt =====
-- `SseSender` and `encode_sse` of app/framework/sse.py. Each method holds the sender's lock, so it is
-- one step. The JSON of a payload is `dump`, a parameter.
pub mod Channel
use Prim.Native.String.{◌++◌ as text_append}
use rag_agent.Prelude.{
  ℕ, suc, ◌+◌, String, Bool, true, false, Option, none, some, List, [], ◌∷◌, ◌++◌, Text,
}
use rag_agent.Stream.Pieces.{split_message_chunk}

pub data SseEventType : Type 0 where
  meta message finish cancel reject guidance done_event : SseEventType

abbrev pub event_value : SseEventType → String
event_value meta = "meta"
event_value message = "message"
event_value finish = "finish"
event_value cancel = "cancel"
event_value reject = "reject"
event_value guidance = "guidance"
event_value done_event = "done"

pub data MessageDeltaType : Type 0 where
  think response : MessageDeltaType

-- a message's delta, a text, or another payload
pub data Payload (X : Type 0) : Type 0 where
  message_delta : MessageDeltaType → Text → Payload X
  text : String → Payload X
  other : X → Payload X

abbrev pub is_done : SseEventType → Bool
is_done e = elim e [
  | meta ↦ false
  | message ↦ false
  | finish ↦ false
  | cancel ↦ false
  | reject ↦ false
  | guidance ↦ false
  | done_event ↦ true
]

-- what the queue holds: a frame or `_END`
pub data Item : Type 0 where
  frame : String → Item
  end_mark : Item

-- `E` is the type of the exceptions
pub record Sender (E : Type 0) : Type 0 where
  pub queue : List Item
  pub closed : Bool
  pub error : Option E

module _ {X : Type 0} (dump : Payload X → String) where
  unfoldable pub encode_sse : SseEventType → Payload X → String
  encode_sse e p = text_append "event: " (
      text_append (event_value e) (
        text_append "\ndata: "
          (text_append (elim (is_done e) [ true ↦ "[DONE]" | false ↦ dump p ]) "\n\n")))

module _ {E : Type 0} where
  abbrev pub new_sender : Sender E
  new_sender = record { queue = []; closed = false; error = none }

  abbrev pub put_items : List Item → Sender E → Sender E
  put_items items s = record s { queue = s.queue ++ items }

  abbrev pub close_with : List Item → Sender E → Sender E
  close_with items s = record s { queue = s.queue ++ items; closed = true }

  -- one round of `stream`: the item that is taken, or `none` while it waits
  unfoldable pub get : Sender E → Option (Item × Sender E)
  get s = elim s.queue [ [] ↦ none | item ∷ rest ↦ some (item, record s { queue = rest }) ]

  unfoldable pub complete : Sender E → Bool × Sender E
  complete s = elim s.closed [ true ↦ (false, s) | false ↦ (true, close_with (end_mark ∷ []) s) ]

  unfoldable pub fail : E → Sender E → Bool × Sender E
  fail x s = elim s.closed [
    | true ↦ (false, s)
    | false ↦ (true, record (close_with (end_mark ∷ []) s) { error = some x })
  ]

module _ {X E : Type 0} (dump : Payload X → String) where
  unfoldable pub done : Sender E → Bool × Sender E
  done s = elim s.closed [
    | true ↦ (false, s)
    | false ↦
        (true, close_with (frame (encode_sse dump done_event (text "[DONE]")) ∷ end_mark ∷ []) s)
  ]

  unfoldable pub send : SseEventType → Payload X → Sender E → Bool × Sender E
  send e p s = elim (is_done e) [
    | true ↦ done s
    | false ↦ elim s.closed [
      | true ↦ (false, s)
      | false ↦ (true, put_items (frame (encode_sse dump e p) ∷ []) s)
    ]
  ]

  -- the loop of `send_message` over the pieces, with the number that was sent
  unfoldable pub send_pieces :
      SseEventType → MessageDeltaType → List Text → ℕ → Sender E → ℕ × Sender E
  send_pieces e d [] sent s = (sent, s)
  send_pieces e d (p ∷ ps) sent s =
      let (ok, s') = send e (message_delta d p) s in
      let rest = send_pieces e d ps (suc sent) s' in elim ok [ true ↦ rest | false ↦ (sent, s') ]

  unfoldable pub send_message : MessageDeltaType → Text → ℕ → SseEventType → Sender E → ℕ × Sender E
  send_message d chunk chunk_size e s = send_pieces e d (split_message_chunk chunk chunk_size) 0 s
