-- ===== src/Stream/Broadcast.antt =====
-- `RedisStreamTaskManager` of app/framework/stream_tasks.py: the table of tasks of one process, with
-- the owners and the cancel marks that the processes share in Redis, and the messages of their topic. A
-- user is stored by its number, `str(user_id)`. A command of Redis is answered, or takes effect although
-- its answer is lost, or does not take effect; each of the two last raises, as the time limit does. What
-- happens between two commands of a method is not part of it; `later` is its second reading of the clock.
pub mod Reach
use rag_agent.Prelude.{
  ℕ, String, Bool, true, false, Option, none, some, List, [], ◌∷◌, ◌++◌, ◌==◌, if◌then◌else◌,
}
use rag_agent.Dict.{get, put, remove}
use rag_agent.Stream.Tasks
use rag_agent.Stream.Tasks.{TaskEntry, StreamTaskManager, Ran, owner}

pub data Reply : Type 0 where
  answered lost failed : Reply

-- the keys below `stream:owner:` and `stream:cancel:`, and the messages of `stream:cancel`
pub record StreamRedis : Type 0 where
  pub owners : List (String × ℕ)
  pub marks : List (String × ℕ)
  pub published : List String

-- a process, and the callbacks that it has run
pub record Site (A : Type 0) : Type 0 where
  pub manager : StreamTaskManager A
  pub redis : StreamRedis
  pub ran : List (Ran A)

abbrev pub has_effect : Reply → Bool
has_effect answered = true
has_effect lost = true
has_effect failed = false

abbrev pub is_user : ℕ → Option ℕ → Bool
is_user user none = false
is_user user (some v) = v == user

abbrev pub set_owner : Reply → String → ℕ → StreamRedis → StreamRedis
set_owner reply task user r =
    if has_effect reply then record r { owners = put task user r.owners } else r

abbrev pub set_mark : Reply → String → ℕ → StreamRedis → StreamRedis
set_mark reply task user r =
    if has_effect reply then record r { marks = put task user r.marks } else r

abbrev pub publish : Reply → String → StreamRedis → StreamRedis
publish reply message r =
    if has_effect reply then record r { published = r.published ++ message ∷ [] } else r

-- a read that is answered, or `none` for one that raises
abbrev pub read_key : Reply → String → List (String × ℕ) → Option (Option ℕ)
read_key answered task keys = some (get task keys)
read_key lost task keys = none
read_key failed task keys = none

module _ {A : Type 0} where
  abbrev pub set_manager : StreamTaskManager A × List (Ran A) → Site A → Site A
  set_manager (m, ran) s = record s { manager = m; ran = s.ran ++ ran }

  -- `super().cancel`
  abbrev pub cancel_local : ℕ → String → ℕ → Site A → Bool × Site A
  cancel_local now task user s =
      let (ok, result) = Tasks.cancel now task user s.manager in (ok, set_manager result s)

  -- `if cancelled_by == str(user_id)`, for a mark that was read or not
  unfoldable pub replay : ℕ → String → ℕ → Option (Option ℕ) → Site A → Site A
  replay now task user none s = s
  replay now task user (some mark) s =
      if is_user user mark then (cancel_local now task user s).1 else s

  unfoldable pub register : ℕ → ℕ → String → ℕ → A → Reply → Reply → Site A → Site A
  register now later task user f set_reply get_reply s =
      let s' = record s {
        manager = Tasks.register now task user f s.manager;
        redis = set_owner set_reply task user s.redis;
      } in
      elim set_reply [
        | answered ↦ replay later task user (read_key get_reply task s'.redis.marks) s'
        | lost ↦ s'
        | failed ↦ s'
      ]

  -- the rest of `bind_cancel`, for what `super().bind_cancel` gives
  unfoldable pub replay_bound :
      ℕ → String → Reply → Site A → Bool × (StreamTaskManager A × List (Ran A)) → Bool × Site A
  replay_bound now task get_reply s (false, result) = (false, set_manager result s)
  replay_bound now task get_reply s (true, result) =
      let s' = set_manager result s in
      elim (owner task s'.manager) [
        | none ↦ (true, s')
        | some user ↦ (true, replay now task user (read_key get_reply task s'.redis.marks) s')
      ]

  unfoldable pub bind_cancel : ℕ → String → A → Reply → Site A → Bool × Site A
  bind_cancel now task action get_reply s =
      replay_bound now task get_reply s (Tasks.bind_cancel task action s.manager)

  unfoldable pub unregister : String → Reply → Site A → Site A
  unregister task reply s =
      let r = s.redis in
      record s {
        manager = Tasks.unregister task s.manager;
        redis = if has_effect reply then record r { owners = remove task r.owners } else r;
      }

  -- the loop of `_replay_registered`, over the entries and the marks that were read for them
  unfoldable pub replay_entries :
      ℕ → List (String × TaskEntry A) → List (String × ℕ) → Site A → Site A
  replay_entries now [] marks s = s
  replay_entries now ((task, e) ∷ entries) marks s =
      replay_entries now entries marks (replay now task e.user_id (some (get task marks)) s)

  unfoldable pub replay_registered : ℕ → Reply → Site A → Site A
  replay_registered now reply s = elim reply [
    | answered ↦ replay_entries now s.manager.entries s.redis.marks s
    | lost ↦ s
    | failed ↦ s
  ]

-- `dumps` and `loads` are JSON's, for a message with a task and a user.
module _ {A : Type 0} (dumps : String → ℕ → String) where
  -- the mark and the message of `cancel`, with its answer for that of the local cancellation
  unfoldable pub broadcast : String → ℕ → Bool → Reply → Reply → Site A → Bool × Site A
  broadcast task user cancelled_local set_reply publish_reply s =
      let r = set_mark set_reply task user s.redis in
      elim set_reply [
        | answered ↦ (
          elim publish_reply [
            | answered ↦ true
            | lost ↦ cancelled_local
            | failed ↦ cancelled_local
          ],
          record s { redis = publish publish_reply (dumps task user) r },
        )
        | lost ↦ (cancelled_local, record s { redis = r })
        | failed ↦ (cancelled_local, record s { redis = r })
      ]

  unfoldable pub cancel_owned : ℕ → String → ℕ → Reply → Reply → Site A → Bool × Site A
  cancel_owned now task user set_reply publish_reply s =
      let (ok, s') = cancel_local now task user s in
      broadcast task user ok set_reply publish_reply s'

  unfoldable pub cancel : ℕ → String → ℕ → Reply → Reply → Reply → Site A → Bool × Site A
  cancel now task user get_reply set_reply publish_reply s = elim (owner task s.manager) [
    | some v ↦
        if v == user then cancel_owned now task user set_reply publish_reply s else (false, s)
    | none ↦ elim (read_key get_reply task s.redis.owners) [
      | none ↦ (false, s)
      | some remote_owner ↦
          if is_user user remote_owner
          then cancel_owned now task user set_reply publish_reply s
          else (false, s)
    ]
  ]

module _ {A : Type 0} (loads : String → Option (String × ℕ)) where
  unfoldable pub handle_message : ℕ → String → Site A → Site A
  handle_message now raw s = elim (loads raw) [
    | none ↦ s
    | some message ↦ (cancel_local now message.0 message.1 s).1
  ]
