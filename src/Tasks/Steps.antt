-- ===== src/Tasks/Steps.antt =====
-- async_task.py: what may happen between the waits of the runners, in any order.
use apcore_python.Prelude.{ℕ, ◌+◌, ◌≡◌, Bool, true, some, List, [], ◌∷◌, ◌++◌, String}
use apcore_python.Acl.Values.{Value}
use apcore_python.Tasks.{
  Task, created, acquiring, calling, backoff, done, Manager, refetch, begin, complete, interrupt,
  fail, settle_cancel, cleanup, reap, submit,
}

-- A step of one task, and what it takes from the semaphore and gives back. The handle of a task is
-- awaited before `cancel` settles. Where other managers of the same event loop share the store, one
-- of them, which has no handle, may settle a cancellation at any time.
pub data TaskStep (shared : Bool) : ℕ → Task → Task → ℕ → Type 0 where
  starts : (t : Task) → t.phase ≡ created → TaskStep shared 0 t (refetch t) 0
  retries : (t : Task) → t.phase ≡ backoff → TaskStep shared 0 t (refetch t) 0
  begins :
      (now : ℕ) (t : Task)
      → t.phase ≡ acquiring
      → (begin now t).phase ≡ calling
      → TaskStep shared 1 t (begin now t) 0
  gives_up :
      (now : ℕ) (t : Task)
      → t.phase ≡ acquiring
      → (begin now t).phase ≡ done
      → TaskStep shared 0 t (begin now t) 0
  returns :
      (now : ℕ) (result : Value) (t : Task)
      → t.phase ≡ calling
      → TaskStep shared 0 t (complete now result t) 1
  raises :
      (now : ℕ) (error : String) (t : Task)
      → t.phase ≡ calling
      → TaskStep shared 0 t (fail now error t) 1
  interrupted_call :
      (now : ℕ) (t : Task) → t.phase ≡ calling → TaskStep shared 0 t (interrupt now t) 1
  interrupted_acquire :
      (now : ℕ) (t : Task) → t.phase ≡ acquiring → TaskStep shared 0 t (interrupt now t) 0
  interrupted_backoff :
      (now : ℕ) (t : Task) → t.phase ≡ backoff → TaskStep shared 0 t (interrupt now t) 0
  never_started : (t : Task) → t.phase ≡ created → TaskStep shared 0 t (record t { phase = done }) 0
  settles : (now : ℕ) (t : Task) → t.phase ≡ done → TaskStep shared 0 t (settle_cancel now t) 0
  elsewhere : (now : ℕ) (t : Task) → shared ≡ true → TaskStep shared 0 t (settle_cancel now t) 0

pub data Step (shared : Bool) : Manager → Manager → Type 0 where
  submits :
      (task_id module_id : String) (now max_retries : ℕ) (m n : Manager)
      → submit task_id module_id now max_retries m ≡ some n
      → Step shared m n
  of_task :
      (front : List Task) (t : Task) (back : List Task) (t' : Task) (takes gives free max_tasks : ℕ)
      → TaskStep shared takes t t' gives
      → Step shared
          (record { tasks = front ++ t ∷ back; free = takes + free; max_tasks = max_tasks })
          (record { tasks = front ++ t' ∷ back; free = free + gives; max_tasks = max_tasks })
  cleans :
      (now max_age : ℕ) (m : Manager)
      → Step shared m (record m { tasks = cleanup now max_age (m.tasks) })
  reaps : (before : ℕ) (m : Manager) → Step shared m (record m { tasks = reap before (m.tasks) })

abbrev pub new_manager : ℕ → ℕ → Manager
new_manager max_concurrent max_tasks = record {
  tasks = [];
  free = max_concurrent;
  max_tasks = max_tasks;
}

pub data Reached (shared : Bool) (max_concurrent max_tasks : ℕ) : Manager → Type 0 where
  at_first : Reached shared max_concurrent max_tasks (new_manager max_concurrent max_tasks)
  then_step :
      {m n : Manager}
      → Reached shared max_concurrent max_tasks m
      → Step shared m n
      → Reached shared max_concurrent max_tasks n
