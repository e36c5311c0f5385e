-- ===== src/Stream/Sender/Channel.antt =====
-- A channel that is closed once, and the steps of writers and a reader on it and on a sender.
pub mod Refinement
use rag_agent.Prelude.{
  ℕ, zero, suc, String, ◌≡◌, refl, sym, ap, ◌∙◌, Bool, true, false, Option, none, some, List, [],
  ◌∷◌, ◌++◌, append_assoc, append-nil, length, Bool-cases, inl, inr,
}
use rag_agent.Stream.Sender.{
  SseEventType, meta, message, finish, cancel, reject, guidance, done_event, is_done, Payload, text,
  Item, frame, end_mark, Sender, encode_sse, new_sender, get, complete, fail, done, send,
}

-- What writers and the reader do, in the order in which the lock lets them.
pub data Act (X E : Type 0) : Type 0 where
  sends : SseEventType → Payload X → Act X E
  dones : Act X E
  completes : Act X E
  fails : E → Act X E
  reads : Act X E

-- The specification: the events that were accepted, and whether the channel is closed.
pub record Channel (X : Type 0) : Type 0 where
  pub log : List (SseEventType × Payload X)
  pub shut : Bool

-- The sender, with the frames that its reader has got, and whether its reading has ended.
pub record Run (E : Type 0) : Type 0 where
  pub sender : Sender E
  pub got : List String
  pub ended : Bool

module _ {X : Type 0} where
  -- An open channel takes an event, a closed one takes none; a done event closes it.
  abbrev pub accept : SseEventType → Payload X → Channel X → Channel X
  accept e p c = elim c.shut [
    | true ↦ c
    | false ↦ record { log = c.log ++ (e, p) ∷ []; shut = is_done e }
  ]

module _ {X E : Type 0} where
  unfoldable pub spec : Act X E → Channel X → Channel X
  spec (sends e p) c = accept e p c
  spec dones c = accept done_event (text "[DONE]") c
  spec completes c = record c { shut = true }
  spec (fails x) c = record c { shut = true }
  spec reads c = c

  unfoldable pub spec_all : List (Act X E) → Channel X → Channel X
  spec_all [] c = c
  spec_all (a ∷ acts) c = spec_all acts (spec a c)

-- the frames of the events
abbrev pub frames :
    {X : Type 0} → (Payload X → String) → List (SseEventType × Payload X) → List String
frames dump [] = []
frames dump ((e, p) ∷ log) = encode_sse dump e p ∷ frames dump log

module _ {X E : Type 0} (dump : Payload X → String) where
  -- the reader's item: it stops at the end mark
  abbrev pub read_item : Run E → Option (Item × Sender E) → Run E
  read_item r none = r
  read_item r (some (frame f, s)) = record { sender = s; got = r.got ++ f ∷ []; ended = false }
  read_item r (some (end_mark, s)) = record r { sender = s; ended = true }

  unfoldable pub read : Run E → Run E
  read r = elim r.ended [ true ↦ r | false ↦ read_item r (get r.sender) ]

  unfoldable pub act : Act X E → Run E → Run E
  act (sends e p) r = record r { sender = (send dump e p r.sender).1 }
  act dones r = record r { sender = (done dump r.sender).1 }
  act completes r = record r { sender = (complete r.sender).1 }
  act (fails x) r = record r { sender = (fail x r.sender).1 }
  act reads r = read r

  unfoldable pub run : List (Act X E) → Run E → Run E
  run [] r = r
  run (a ∷ acts) r = run acts (act a r)

abbrev pub start : {E : Type 0} → Run E
start = record { sender = new_sender; got = []; ended = false }

abbrev pub no_events : {X : Type 0} → Channel X
no_events = record { log = []; shut = false }
