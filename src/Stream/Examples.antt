-- ===== src/Stream/Examples.antt =====
-- The theorems on streams at concrete values.
use rag_agent.Prelude.{
  ℕ, max, String, ◌≡◌, ◌≤◌, refl, true, false, Option, none, some, List, [], ◌∷◌, ◌==◌, All, Text,
  is_blank, if◌then◌else◌, arith,
}
use rag_agent.Dict.{get, put}
use rag_agent.Stream.Pieces.{split_message_chunk, join, IsPiece, split_message_chunk-join}
use rag_agent.Stream.Sender.{meta, finish, Payload, other, text, message_delta}
use rag_agent.Stream.Sender.Channel.{
  Act, sends, dones, completes, reads, spec_all, no_events, run, start,
}
use rag_agent.Stream.Sender.Channel.Refinement.{Refines, run-Refines}
use rag_agent.Stream.Tasks.{owner, TaskEntry, init, cancel_finalizer, cancel_action}
use rag_agent.Stream.Tasks.Table.{Call, registers, binds, cancels, unregisters, calls}
use rag_agent.Stream.Tasks.Once.{finalizers_run, registered, calls-finalizers_run}
use rag_agent.Stream.Broadcast.{answered, Site, cancel, handle_message, bind_cancel, register}
use rag_agent.Stream.Broadcast.Reach.{cancelled_redis, cancel-reach}

abbrev words : Text
words = 104 ∷ 105 ∷ 32 ∷ 121 ∷ 111 ∷ []

split_message_chunk-join_example :
    (join (split_message_chunk words 2) ≡ (if is_blank words then [] else words))
    × All (IsPiece (max 1 2)) (split_message_chunk words 2)
split_message_chunk-join_example = split_message_chunk-join words 2

abbrev dump : Payload String → String
dump (message_delta d t) = "delta"
dump (text s) = s
dump (other s) = s

abbrev acts : List (Act String ℕ)
acts =
    sends meta (other "m")
    ∷ reads
    ∷ sends finish (other "f")
    ∷ dones
    ∷ sends finish (other "g")
    ∷ completes
    ∷ reads
    ∷ []

run-Refines_example : Refines dump (run dump acts start) (spec_all acts no_events)
run-Refines_example = run-Refines dump acts

abbrev some_calls : List (Call ℕ)
some_calls =
    registers 0 "t" 1 7
    ∷ binds "t" 8
    ∷ cancels 3 "t" 1
    ∷ cancels 4 "t" 1
    ∷ registers 5 "u" 2 9
    ∷ unregisters "t"
    ∷ []

calls-finalizers_run_example :
    finalizers_run (λ a. a == 7) (calls some_calls (init 1 60)).1
    ≤ registered (λ a. a == 7) some_calls
calls-finalizers_run_example = calls-finalizers_run (λ a. a == 7) some_calls 1 60

-- one user's JSON
abbrev dumps : String → ℕ → String
dumps task user = task

abbrev loads : String → Option (String × ℕ)
loads raw = some (raw, 1)

abbrev entry : TaskEntry ℕ
entry = record {
  user_id = 1;
  created_at = 0;
  finalizer = 7;
  cancel_action = none;
  cancelled = false;
}

abbrev caller : Site ℕ
caller = record {
  manager = record { entries = []; max_entries = 9; ttl_seconds = 60 };
  redis = record { owners = ("t", 1) ∷ []; marks = []; published = [] };
  ran = [];
}

abbrev runner : Site ℕ
runner = record caller {
  manager = record { entries = ("t", entry) ∷ []; max_entries = 9; ttl_seconds = 60 };
}

abbrev told : Site ℕ
told = record runner { redis = cancelled_redis dumps "t" 1 caller.redis }

cancel-reach_example :
    ((cancel dumps 5 "t" 1 answered answered answered caller).0 ≡ true)
    × ((cancel dumps 5 "t" 1 answered answered answered caller).1.redis
        ≡ cancelled_redis dumps "t" 1 caller.redis)
    × ((handle_message loads 6 "t" told).ran ≡ cancel_finalizer 7 ∷ [])
    × ((bind_cancel 6 "t" 8 answered told).1.ran ≡ cancel_action 8 ∷ cancel_finalizer 7 ∷ [])
    × ((register 5 6 "t" 1 10 answered answered told).ran ≡ cancel_finalizer 10 ∷ [])
unfolding get put owner
cancel-reach_example =
    cancel-reach dumps loads 5 6 "t" answered caller runner entry 8 10 refl refl refl refl refl
      (omega arith)
