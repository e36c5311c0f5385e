-- ===== src/TaskQueue/Rows.antt =====
-- The rows of `t_async_task` (app/framework/async_task.py) and what the methods of `TaskQueue`
-- (app/framework/task_queue.py) assign to one row. Times are in milliseconds. `P` is the payload,
-- with the missing one read as the empty one.
use rag_agent.Prelude.{
  ℕ, ◌+◌, ◌*◌, ◌^◌, min, max, String, str_eq, Bool, true, false, not, ◌&&◌, ◌||◌, Option, none,
  some, ltb, leb, ◌==◌, if◌then◌else◌,
}

pub data TaskStatus : Type 0 where
  pending running success failed : TaskStatus

pub record AsyncTask (P : Type 0) : Type 0 where
  pub id : ℕ
  pub event_id : String
  pub task_type : String
  pub biz_key : String
  pub payload : P
  pub status : TaskStatus
  pub owner : Option String
  pub lease_until : Option ℕ
  pub retry_count : ℕ
  pub max_retries : ℕ
  pub next_retry_at : Option ℕ
  pub error_message : Option String
  pub create_time : ℕ

pub record ClaimedTask (P : Type 0) : Type 0 where
  pub id : ℕ
  pub event_id : String
  pub task_type : String
  pub biz_key : String
  pub payload : P
  pub retry_count : ℕ
  pub max_retries : ℕ

abbrev pub is_pending : TaskStatus → Bool
is_pending s = elim s [ pending ↦ true | _ ↦ false ]

abbrev pub is_running : TaskStatus → Bool
is_running s = elim s [ running ↦ true | _ ↦ false ]

-- the condition of the index `uk_async_task_active`
abbrev pub is_active : TaskStatus → Bool
is_active s = elim s [ pending ↦ true | running ↦ true | success ↦ false | failed ↦ false ]

-- `owner = :owner` in SQL, where NULL equals nothing
abbrev pub owned_by : String → Option String → Bool
owned_by o none = false
owned_by o (some x) = str_eq x o

-- a time that is NULL or has come
abbrev pub is_due : ℕ → Option ℕ → Bool
is_due now none = true
is_due now (some t) = leb t now

abbrev pub has_passed : ℕ → Option ℕ → Bool
has_passed now none = false
has_passed now (some t) = ltb t now

-- `event_id is not None and task.event_id != event_id`
abbrev pub is_other_event : Option String → String → Bool
is_other_event none x = false
is_other_event (some e) x = not (str_eq x e)

-- The backoff of a retry, in milliseconds.
abbrev pub retry_delay : ℕ → ℕ
retry_delay count = min 300 (2 ^ min count 8) * 1000

module _ {P : Type 0} where
  abbrev pub claimed_task : AsyncTask P → ClaimedTask P
  claimed_task t = record {
    id = t.id;
    event_id = t.event_id;
    task_type = t.task_type;
    biz_key = t.biz_key;
    payload = t.payload;
    retry_count = t.retry_count;
    max_retries = t.max_retries;
  }

  -- the WHERE clause of `claim`
  abbrev pub is_claimable : ℕ → AsyncTask P → Bool
  is_claimable now t = is_pending t.status && is_due now t.next_retry_at

  -- the WHERE clause of `succeed`, `fail`, `renew` and `defer`
  abbrev pub is_held : ℕ → String → AsyncTask P → Bool
  is_held id owner t = (t.id == id) && owned_by owner t.owner && is_running t.status

  -- the WHERE clause of `recover_stuck`
  abbrev pub is_stuck : ℕ → AsyncTask P → Bool
  is_stuck now t = is_running t.status && has_passed now t.lease_until

  -- the arbiter of ON CONFLICT, and what the unique index forbids twice
  abbrev pub is_active_of : String → String → AsyncTask P → Bool
  is_active_of type key t = is_active t.status && str_eq t.task_type type && str_eq t.biz_key key

  -- ORDER BY create_time, id
  abbrev pub is_before : AsyncTask P → AsyncTask P → Bool
  is_before s t =
      ltb s.create_time t.create_time || ((s.create_time == t.create_time) && ltb s.id t.id)

  -- What a new row holds.
  abbrev pub new_row : ℕ → ℕ → String → String → String → P → ℕ → AsyncTask P
  new_row now id event type key payload max_retries = record {
    id = id;
    event_id = event;
    task_type = type;
    biz_key = key;
    payload = payload;
    status = pending;
    owner = none;
    lease_until = none;
    retry_count = 0;
    max_retries = max_retries;
    next_retry_at = none;
    error_message = none;
    create_time = now;
  }

  -- the assignments of ON CONFLICT DO UPDATE
  abbrev pub refresh_row : String → P → ℕ → AsyncTask P → AsyncTask P
  refresh_row event payload max_retries t = record t {
    event_id = event;
    payload = payload;
    retry_count = 0;
    max_retries = max_retries;
    next_retry_at = none;
    error_message = none;
  }

  abbrev pub claim_row : ℕ → ℕ → String → AsyncTask P → AsyncTask P
  claim_row now lease owner t = record t {
    status = running;
    owner = some owner;
    lease_until = some (now + lease);
  }

  -- what `succeed` and `fail` do with a row that has another event by now
  abbrev pub requeue_row : AsyncTask P → AsyncTask P
  requeue_row t = record t { status = pending; owner = none; lease_until = none }

  abbrev pub succeed_row : AsyncTask P → AsyncTask P
  succeed_row t = record t {
    status = success;
    owner = none;
    lease_until = none;
    error_message = none;
  }

  -- `task.retry_count > task.max_retries`, after the increment
  abbrev pub is_terminal : AsyncTask P → Bool
  is_terminal t = ltb t.max_retries (t.retry_count + 1)

  abbrev pub fail_row : ℕ → String → AsyncTask P → AsyncTask P
  fail_row now error t = record t {
    retry_count = t.retry_count + 1;
    owner = none;
    lease_until = none;
    error_message = some error;
    status = if is_terminal t then failed else pending;
    next_retry_at = if is_terminal t then none else some (now + retry_delay (t.retry_count + 1));
  }

  abbrev pub renew_row : ℕ → ℕ → AsyncTask P → AsyncTask P
  renew_row now lease t = record t { lease_until = some (now + lease) }

  abbrev pub defer_row : ℕ → ℕ → String → AsyncTask P → AsyncTask P
  defer_row now delay error t = record t {
    status = pending;
    owner = none;
    lease_until = none;
    next_retry_at = some (now + max 100 delay);
    error_message = some error;
  }

  abbrev pub recover_row : ℕ → AsyncTask P → AsyncTask P
  recover_row now t = record t {
    retry_count = t.retry_count + 1;
    status = if is_terminal t then failed else pending;
    owner = none;
    lease_until = none;
    next_retry_at = if is_terminal t then none else some now;
    error_message = some "任务租约超时";
  }
