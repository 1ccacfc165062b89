-- ===== src/Tasks.antt =====
-- async_task.py: the tasks of an `AsyncTaskManager`. A task is its record in the store, if there is
-- one, and the runner's own copy with the point where the runner waits. Between two such points the
-- code awaits nothing but the store. The store's calls do not suspend, as those of
-- `InMemoryTaskStore`, whose bodies return without awaiting; so what the code does between two waits
-- is one function. With a store that suspends, a write of others may come between the check of a
-- runner and its write, as `_store_reached_terminal` says. Times are natural numbers; the delay of a
-- retry is the caller's to wait for.
use apcore_python.Prelude.{
  ℕ, ◌+◌, Bool, true, false, not, ◌&&◌, ◌||◌, Option, none, some, List, [], ◌∷◌, ◌++◌, String, Text,
  str_eq, ltb, leb, length, is_some, if◌then◌else◌,
}
use apcore_python.Acl.Values.{Value}
pub mod Steps
pub mod Final
pub mod Limits
pub mod Attempts
mod Tests

pub data TaskStatus : Type 0 where
  pending running completed failed cancelled : TaskStatus

pub record TaskInfo : Type 0 where
  pub task_id : String
  pub module_id : String
  pub status : TaskStatus
  pub submitted_at : ℕ
  pub started_at : Option ℕ
  pub completed_at : Option ℕ
  pub result : Option Value
  pub error : Option String
  pub retry_count : ℕ
  pub max_retries : ℕ

-- `_ACTIVE_STATUSES` and `_TERMINAL_STATUSES`
abbrev pub is_active : TaskStatus → Bool
is_active pending = true
is_active running = true
is_active _ = false

abbrev pub is_terminal : TaskStatus → Bool
is_terminal status = not (is_active status)

-- Where a runner waits: to be started, for the semaphore, for the module, for the next attempt.
pub data Phase : Type 0 where
  created acquiring calling backoff done : Phase

pub record Task : Type 0 where
  pub stored : Option TaskInfo
  pub info : TaskInfo
  pub phase : Phase

abbrev pub stored_active : Option TaskInfo → Bool
stored_active none = false
stored_active (some info) = is_active info.status

-- `_store_reached_terminal`
abbrev pub reached_terminal : Option TaskInfo → Bool
reached_terminal none = false
reached_terminal (some info) = is_terminal info.status

abbrev pub at_phase : Phase → Task → Task
at_phase phase t = record t { phase = phase }

-- `_save`, and where the runner goes then
abbrev pub save : TaskInfo → Phase → Task → Task
save info phase t = record { stored = some info; info = info; phase = phase }

-- the top of the loop: the runner takes the record afresh, or ends
unfoldable pub refetch : Task → Task
refetch t = elim t.stored [
  | none ↦ at_phase done t
  | some info ↦
      if is_terminal info.status
      then at_phase done t
      else record t { info = info; phase = acquiring }
]

abbrev pub or_now : ℕ → Option ℕ → Option ℕ
or_now now none = some now
or_now now (some at) = some at

-- the semaphore is held
unfoldable pub begin : ℕ → Task → Task
begin now t =
    if reached_terminal t.stored
    then at_phase done t
    else save (record (t.info) { status = running; started_at = or_now now t.info.started_at })
        calling t

-- the module returned
unfoldable pub complete : ℕ → Value → Task → Task
complete now result t =
    if reached_terminal t.stored
    then at_phase done t
    else save
        (record (t.info) { status = completed; completed_at = some now; result = some result }) done
        t

-- `asyncio.CancelledError`
unfoldable pub interrupt : ℕ → Task → Task
interrupt now t =
    if reached_terminal t.stored
    then at_phase done t
    else save (record (t.info) { status = cancelled; completed_at = some now }) done t

-- the module raised
unfoldable pub fail : ℕ → String → Task → Task
fail now error t =
    if ltb t.info.retry_count t.info.max_retries
    then if reached_terminal t.stored
      then at_phase done t
      else save (record (t.info) { retry_count = t.info.retry_count + 1; status = pending }) backoff
          t
    else if reached_terminal t.stored
    then at_phase done t
    else save (record (t.info) { status = failed; completed_at = some now; error = some error })
        done t

-- the end of `cancel`: the record is taken afresh
unfoldable pub settle_cancel : ℕ → Task → Task
settle_cancel now t = elim t.stored [
  | none ↦ t
  | some info ↦
      if is_active info.status
      then record t { stored = some (record info { status = cancelled; completed_at = some now }) }
      else t
]

-- `ref_time` of `cleanup`
abbrev pub ref_time : TaskInfo → ℕ
ref_time info = elim info.completed_at [ none ↦ info.submitted_at | some at ↦ at ]

-- `cleanup` takes this record away
abbrev pub is_old : ℕ → ℕ → TaskInfo → Bool
is_old now max_age info = is_terminal info.status && leb (ref_time info + max_age) now

-- `list_expired` lists this record, for the reaper to take away
abbrev pub is_expired : ℕ → TaskInfo → Bool
is_expired before info =
    is_terminal info.status && elim info.completed_at [ none ↦ false | some at ↦ ltb at before ]

abbrev pub sweep_task : (TaskInfo → Bool) → Task → Task
sweep_task gone t = elim t.stored [
  | none ↦ t
  | some info ↦ if gone info then record t { stored = none } else t
]

abbrev sweep : (TaskInfo → Bool) → List Task → List Task
sweep gone [] = []
sweep gone (t ∷ tasks) = sweep_task gone t ∷ sweep gone tasks

unfoldable pub cleanup : ℕ → ℕ → List Task → List Task
cleanup now max_age tasks = sweep (is_old now max_age) tasks

-- one round of `_reap_loop`
unfoldable pub reap : ℕ → List Task → List Task
reap before tasks = sweep (is_expired before) tasks

-- `sum(1 for info in all_tasks if info.status in _ACTIVE_STATUSES)`
abbrev pub active : List Task → ℕ
active [] = 0
active (t ∷ tasks) = (if stored_active t.stored then 1 else 0) + active tasks

-- `free` is the value of the semaphore.
pub record Manager : Type 0 where
  pub tasks : List Task
  pub free : ℕ
  pub max_tasks : ℕ

abbrev pub new_info : String → String → ℕ → ℕ → TaskInfo
new_info task_id module_id now max_retries = record {
  task_id = task_id;
  module_id = module_id;
  status = pending;
  submitted_at = now;
  started_at = none;
  completed_at = none;
  result = none;
  error = none;
  retry_count = 0;
  max_retries = max_retries;
}

abbrev pub new_task : TaskInfo → Task
new_task info = record { stored = some info; info = info; phase = created }

-- `submit`, for a task ID of `uuid4`; `none` is `TaskLimitExceededError`
unfoldable pub submit : String → String → ℕ → ℕ → Manager → Option Manager
submit task_id module_id now max_retries m =
    if leb m.max_tasks (active m.tasks)
    then none
    else some
        (record m { tasks = m.tasks ++ new_task (new_info task_id module_id now max_retries) ∷ [] })

-- `get_result`: the result, `KeyError` or `RuntimeError`
pub data Got : Type 0 where
  value : Option Value → Got
  not_found not_completed : Got

unfoldable pub get_result : Option TaskInfo → Got
get_result none = not_found
get_result (some info) = elim info.status [ completed ↦ value info.result | _ ↦ not_completed ]
