-- ===== src/Routing/Fallback/Examples.antt =====
-- The theorems on calls with fallback, at concrete clients.
use rag_agent.Prelude.{
  ℕ, String, ◌≡◌, ◌≢◌, refl, true, false, Option, none, some, List, [], ◌∷◌, arith, eq_iff, str_eq,
  if◌then◌else◌, sym, ◌∙◌,
}
use mathlib.Core.Bool.{false≢true}
use rag_agent.Dict.{get, put}
use rag_agent.Routing.Health.{
  opened, entry_of, set_entry, allow_call, mark_success, mark_failure, release_half_open_permit,
  half_open,
}
use rag_agent.Routing.Health.Calls.{Call, check, success, allow, run}
use rag_agent.Routing.Health.Probe.{resolves}
use rag_agent.Routing.Model.{ModelTarget}
use rag_agent.Routing.FirstPacket.{ProbeResult, timeout}
use rag_agent.Routing.Fallback.{
  Outcome, returned, raised, cancelled, Executed, value, interrupted, World, settle, call_permitted,
  try_target, execute_from, execute_with_fallback,
}
use rag_agent.Routing.Fallback.Permits.{token_of, execute-NoNewProbe}
use rag_agent.Routing.Fallback.Leak.{cancelled_call_leaks}
use rag_agent.Routing.Fallback.Replies.{first_reply, replies, execute-first_reply}
use rag_agent.Routing.Fallback.Streams.{
  stream_chat, after_attempt, try_stream_candidate, permitted, started, probed,
}
use rag_agent.Routing.Fallback.Streams.Resolved.{stream_chat-NoNewProbe}

program : Unit {0}
unfolding execute_with_fallback execute_from try_target call_permitted settle allow_call
    mark_success mark_failure release_half_open_permit entry_of set_entry get put run
program = tt

abbrev target : String → ModelTarget
target id = record {
  candidate = record {
    id = id;
    provider = "bailian";
    model = id;
    url = none;
    dimension = none;
    priority = 100;
    enabled = true;
    supports_thinking = false;
  };
  tier = none;
  timeout_ms = none;
}

abbrev world : World
world = record {
  health = record { failure_threshold = 2; open_duration = 30; entries = []; token_seq = 0 };
  now = 40;
}

-- the circuit of "a" is open, and due for a probe
abbrev due : World
due = record world {
  health = record {
    failure_threshold = 2;
    open_duration = 30;
    entries =
        (
          "a",
          record { state = opened; consecutive_failures = 0; open_until = 35; half_open_token = 0 },
        )
        ∷ [];
    token_seq = 0;
  };
}

abbrev clients : List (String × ℕ)
clients = ("bailian", 7) ∷ []

-- a client that fails for "a" and answers for the others
abbrev reply : ℕ → ModelTarget → Outcome ℕ String
reply c t = if str_eq t.candidate.id "a" then raised "busy" else returned c

falls_back :
    (execute_with_fallback clients
      (λ c t w. (reply c t, w))
      "Chat"
      (target "a" ∷ target "b" ∷ [])
      world).0
    ≡ value 7
unfolding program
falls_back = refl

execute-first_reply_example :
    (execute_with_fallback clients
      (λ c t w. (reply c t, w))
      "Chat"
      (target "a" ∷ target "b" ∷ [])
      world).0
    ≡ first_reply "Chat" none (replies clients reply (target "a" ∷ target "b" ∷ []))
unfolding program
execute-first_reply_example =
    execute-first_reply clients reply "Chat" (target "a") (target "b" ∷ []) world (refl, (refl, tt))
      (((λ p. false≢true ((eq_iff "a" "b").1 p)), tt), (tt, tt))

-- "b" holds a probe all along; the probe of "a" is resolved by its failure
abbrev busy : World
busy = record due {
  health = record {
    failure_threshold = 2;
    open_duration = 30;
    entries =
        (
          "a",
          record { state = opened; consecutive_failures = 0; open_until = 35; half_open_token = 0 },
        )
        ∷ (
          "b",
          record {
            state = half_open;
            consecutive_failures = 0;
            open_until = 35;
            half_open_token = 1;
          },
        )
        ∷ [];
    token_seq = 1;
  };
}

value-ne-interrupted : (v : ℕ) → ◌≢◌ {A = Executed ℕ String} (value v) interrupted
value-ne-interrupted v e = cc

busy_value :
    (execute_with_fallback clients
      (λ c t w. (reply c t, w))
      "Chat"
      (target "a" ∷ target "c" ∷ [])
      busy).0
    ≡ value 7
unfolding program
busy_value = refl

execute-NoNewProbe_example :
    token_of
      (execute_with_fallback clients
        (λ c t w. (reply c t, w))
        "Chat"
        (target "a" ∷ target "c" ∷ [])
        busy).1.health
      "b"
    ≡ token_of busy.health "b"
unfolding program
execute-NoNewProbe_example =
    execute-NoNewProbe clients (λ c t w. (reply c t, w)) "Chat" (target "a" ∷ target "c" ∷ []) busy
      "b" (λ c t v. refl) (λ e. value-ne-interrupted 7 (sym busy_value ∙ e)) (omega arith)

abbrev cancel_all : ℕ → ModelTarget → World → Outcome ℕ String × World
cancel_all c t w = (cancelled, w)

abbrev afterwards : List Call
afterwards = check 50 "a" ∷ success "b" ∷ allow 80 "a" ∷ []

cancelled_call_leaks_example :
    ((execute_with_fallback clients cancel_all "Chat" (target "a" ∷ []) due).0 ≡ interrupted)
    × ((allow_call 1000 "a" (
          run afterwards
            (execute_with_fallback clients cancel_all "Chat" (target "a" ∷ []) due).1.health)).0
        ≡ none)
unfolding program resolves
cancelled_call_leaks_example =
    cancelled_call_leaks clients cancel_all "Chat" (target "a") [] due
      (record due { health = (allow_call 40 "a" due.health).1 }) {c = 7} afterwards 1000 refl refl
      (omega arith) refl refl (refl, (refl, (refl, tt)))

abbrev start : ℕ → ModelTarget → World → Outcome (Option ℕ) String × World
start c t w = (returned (some c), w)

abbrev never : ℕ → ModelTarget → World → Outcome ProbeResult String × World
never h t w = (cancelled, w)

abbrev cancel : ℕ → World → Outcome (Unit {0}) String × World
cancel h w = (returned tt, w)

cancel-closes : (h : ℕ) (w : World) → (cancel h w).0 ≢ cancelled
cancel-closes h w e = cc

stream_chat-NoNewProbe_example :
    token_of (stream_chat start never cancel clients (target "a" ∷ []) busy).1.health "b"
    ≡ token_of busy.health "b"
unfolding program stream_chat after_attempt try_stream_candidate permitted started probed
stream_chat-NoNewProbe_example =
    stream_chat-NoNewProbe start never cancel clients (target "a" ∷ []) busy "b" (λ c t v. refl)
      (λ h t v. refl) (λ h v. refl) cancel-closes (omega arith)

abbrev late : ℕ → ModelTarget → World → Outcome ProbeResult String × World
late h t w = (returned timeout, w)

abbrev cut_short : ℕ → World → Outcome (Unit {0}) String × World
cut_short h w = (cancelled, w)

-- the probe of "a" is out, and nobody returns it
cut_short_leaks :
    (allow_call 1000 "a"
      (stream_chat start late cut_short clients (target "a" ∷ []) due).1.health).0
    ≡ none
unfolding program stream_chat after_attempt try_stream_candidate permitted started probed
cut_short_leaks = refl
