-- ===== src/Stream/Broadcast/Reach.antt =====
-- Only the owner's cancellation has an effect, and it reaches the process that runs the task.
use rag_agent.Prelude.{
  eq_iff, ℕ, ◌+◌, ◌≤◌, String, ◌≡◌, refl, ap, ◌∙◌, Bool, true, false, Option, none, some, List, [],
  ◌∷◌, ◌++◌, arith, append-nil,
}
use rag_agent.Dict.{get, put, get-put}
use rag_agent.Stream.Tasks.{
  TaskEntry, StreamTaskManager, Ran, late_cancel_action, cancel_action, cancel_finalizer,
  is_expired, ran_actions, owner, new_entry, make_room, prune_entries,
}
use rag_agent.Stream.Tasks
use rag_agent.Stream.Tasks.Orders.{cancel_lem, bind_cancel_lem, get-put_same}
use rag_agent.Stream.Broadcast.{
  Reply, answered, StreamRedis, Site, is_user, read_key, replay, register, broadcast, cancel_owned,
  cancel, replay_bound, bind_cancel, handle_message,
}

-- The owner that a process knows of: its own table's, else the one that Redis answers.
abbrev pub known_owner : {A : Type 0} → Reply → String → Site A → Option ℕ
known_owner reply task s = elim (owner task s.manager) [
  | some v ↦ some v
  | none ↦ elim (read_key reply task s.redis.owners) [
    | none ↦ none
    | some remote_owner ↦ remote_owner
  ]
]

module _ {A : Type 0} (dumps : String → ℕ → String) where
  -- A cancellation by a user who is not the owner that the process knows of, for want of an answer or of
  -- a task too, is refused: no task, mark or message changes, and nothing is run.
  cancel-foreign :
      (now : ℕ) (task : String) (user : ℕ) (get_reply set_reply publish_reply : Reply) (s : Site A)
      → is_user user (known_owner get_reply task s) ≡ false
      → cancel dumps now task user get_reply set_reply publish_reply s ≡ (false, s)
  unfolding cancel
  cancel-foreign now task user get_reply set_reply publish_reply s h = ground (arith)

  -- the owner's
  cancel_known :
      (now : ℕ) (task : String) (user : ℕ) (get_reply set_reply publish_reply : Reply) (s : Site A)
      → is_user user (known_owner get_reply task s) ≡ true
      → cancel dumps now task user get_reply set_reply publish_reply s
        ≡ cancel_owned dumps now task user set_reply publish_reply s
  unfolding cancel
  cancel_known now task user get_reply set_reply publish_reply s h = ground (arith)

module _ {A : Type 0} where
  -- What `ran` gains when a mark names the user of an entry that can be cancelled.
  pub replay_lem :
      (now : ℕ) (task : String) (e : TaskEntry A) (s : Site A)
      → get task s.manager.entries ≡ some e
      → e.cancelled ≡ false
      → is_expired now s.manager.ttl_seconds e ≡ false
      → (replay now task e.user_id (some (some e.user_id)) s).ran
        ≡ s.ran ++ ran_actions e.cancel_action (cancel_finalizer e.finalizer ∷ [])
  unfolding replay
  replay_lem now task e s h k l = rw (cancel_lem now task e s.manager h k l) (ground arith)

  -- The mark of an owner's cancellation is there before the task is registered: the registration runs
  -- the finalizer.
  register_lem :
      (now later : ℕ) (task : String) (user : ℕ) (f : A) (s : Site A)
      → later ≤ now + s.manager.ttl_seconds
      → get task s.redis.marks ≡ some user
      → (register now later task user f answered answered s).ran ≡ s.ran ++ cancel_finalizer f ∷ []
  unfolding register Tasks.register
  register_lem now later task user f s h q =
      let m = Tasks.register now task user f s.manager in
      let d =
        make_room s.manager.max_entries
          (prune_entries now s.manager.ttl_seconds s.manager.entries) in
      rw q (
        replay_lem later task (new_entry now user f)
          (record s {
            manager = m;
            redis = record (s.redis) { owners = put task user s.redis.owners };
          })
          (get-put_same task (new_entry now user f) d) refl (ground arith))

  -- it is there before the action is bound
  bind_lem :
      (now : ℕ) (task : String) (a : A) (e : TaskEntry A) (s : Site A)
      → get task s.manager.entries ≡ some e
      → e.cancelled ≡ false
      → is_expired now s.manager.ttl_seconds e ≡ false
      → get task s.redis.marks ≡ some e.user_id
      → (bind_cancel now task a answered s).1.ran
        ≡ s.ran ++ cancel_action a ∷ cancel_finalizer e.finalizer ∷ []
  unfolding bind_cancel replay_bound owner
  bind_lem now task a e s h k l q =
      let b : TaskEntry A = record e { cancel_action = some a; cancelled = false } in
      let m : StreamTaskManager A = record (s.manager) { entries = put task b s.manager.entries } in
      let s' : Site A = record s { manager = m; ran = s.ran ++ [] } in
      ap
        (λ (r : Bool × (StreamTaskManager A × List (Ran A))).
          (replay_bound now task answered s r).1.ran)
        (bind_cancel_lem task a e s.manager h)
      ∙ rw (k, get-put_same task b s.manager.entries, replay_bound)
          (rw q (
            rw k (
              replay_lem now task b s' (get-put_same task b s.manager.entries) refl l
              ∙ ap (λ r. r ++ cancel_action a ∷ cancel_finalizer e.finalizer ∷ [])
                  (append-nil s.ran))))

get-put_mark :
    (task : String) (user : ℕ) (d : List (String × ℕ)) → get task (put task user d) ≡ some user
get-put_mark task user d = ground (arith, get-put task task user d, eq_iff task task)

-- Redis after an owner's cancellation
abbrev pub cancelled_redis : (String → ℕ → String) → String → ℕ → StreamRedis → StreamRedis
cancelled_redis dumps task user r = record r {
  marks = put task user r.marks;
  published = r.published ++ dumps task user ∷ [];
}

module _ {A : Type 0} (dumps : String → ℕ → String) (loads : String → Option (String × ℕ)) where
  handle_message_lem :
      (now : ℕ) (task raw : String) (e : TaskEntry A) (s : Site A)
      → loads raw ≡ some (task, e.user_id)
      → get task s.manager.entries ≡ some e
      → e.cancelled ≡ false
      → is_expired now s.manager.ttl_seconds e ≡ false
      → (handle_message loads now raw s).ran
        ≡ s.ran ++ ran_actions e.cancel_action (cancel_finalizer e.finalizer ∷ [])
  unfolding handle_message
  handle_message_lem now task raw e s p h k l =
      rw (p, handle_message) (rw (cancel_lem now task e s.manager h k l) refl)

  -- Where both commands of an owner's cancellation are answered, it says yes, and the task is
  -- cancelled at another process that shares this Redis, whatever it does first: one that has the task
  -- runs the cancel action and the finalizer when it gets the message, or on binding an action if it
  -- missed the message; one that registers the task later runs the finalizer at once.
  pub cancel-reach :
      (now later : ℕ) (task : String) (get_reply : Reply) (s b : Site A) (e : TaskEntry A) (a f : A)
      → loads (dumps task e.user_id) ≡ some (task, e.user_id)
      → is_user e.user_id (known_owner get_reply task s) ≡ true
      → get task b.manager.entries ≡ some e
      → e.cancelled ≡ false
      → is_expired later b.manager.ttl_seconds e ≡ false
      → later ≤ now + b.manager.ttl_seconds
      → let r = cancelled_redis dumps task e.user_id s.redis in
        let b' : Site A = record b { redis = r } in
        let answer = cancel dumps now task e.user_id get_reply answered answered s in
        (answer.0 ≡ true)
        × (answer.1.redis ≡ r)
        × ((handle_message loads later (dumps task e.user_id) b').ran
            ≡ b.ran ++ ran_actions e.cancel_action (cancel_finalizer e.finalizer ∷ []))
        × ((bind_cancel later task a answered b').1.ran
            ≡ b.ran ++ cancel_action a ∷ cancel_finalizer e.finalizer ∷ [])
        × ((register now later task e.user_id f answered answered b').ran
            ≡ b.ran ++ cancel_finalizer f ∷ [])
  unfolding cancel_owned broadcast
  cancel-reach now later task get_reply s b e a f p o h k l t =
      let r = cancelled_redis dumps task e.user_id s.redis in
      let b' : Site A = record b { redis = r } in
      let marked = get-put_mark task e.user_id s.redis.marks in
      rw (cancel_known dumps now task e.user_id get_reply answered answered s o) (
        refl,
        refl,
        handle_message_lem later task (dumps task e.user_id) e b' p h k l,
        bind_lem later task a e b' h k l marked,
        register_lem now later task e.user_id f b' t marked,
      )
