-- ===== src/Tasks/Tests.antt =====
-- async_task.py: examples.
use apcore_python.Prelude.{length, suc, ℕ, ◌≤◌, ◌≡◌, refl, Bool, false, none, [], ◌∷◌, List, String}
use apcore_python.Tasks.{
  failed, Task, pending, calling, Manager, begin, refetch, submit, new_task, new_info, active,
  settle_cancel,
}
use apcore_python.Tasks.Steps.{
  Step, Reached, at_first, then_step, submits, of_task, starts, new_manager,
}
use apcore_python.Tasks.Final.{Reached-Later, Later}
use apcore_python.Tasks.Limits.{Reached-limits, calls}
use apcore_python.Tasks.Attempts.{attempts-Has, attempts, Has}

abbrev fresh : Task
fresh = new_task (new_info "t1" "a.b" 5 1)

abbrev with_tasks : List Task → Manager
with_tasks tasks = record { tasks = tasks; free = 1; max_tasks = 1 }

full : submit "t2" "a.b" 6 0 (with_tasks (fresh ∷ [])) ≡ none
unfolding submit
full = refl

-- A task that another manager cancelled while it waited for the semaphore, and whose record was
-- swept before its turn came, is written back and run.
swept_and_run :
    (begin 20 (record (settle_cancel 6 (refetch fresh)) { stored = none })).phase ≡ calling
unfolding begin refetch settle_cancel
swept_and_run = refl

submitted : Reached false 1 1 (with_tasks (fresh ∷ []))
unfolding submit
submitted =
    then_step at_first (submits "t1" "a.b" 5 1 (new_manager 1 1) (with_tasks (fresh ∷ [])) refl)

starting : (shared : Bool) → Step shared (with_tasks (fresh ∷ [])) (with_tasks (refetch fresh ∷ []))
starting shared = of_task [] fresh [] (refetch fresh) 0 0 1 1 (starts fresh refl)

Reached-Later_example : Later (fresh ∷ []) (refetch fresh ∷ [])
Reached-Later_example = Reached-Later submitted (starting false)

Reached-limits_example : (calls (fresh ∷ []) ≤ 1) × (active (fresh ∷ []) ≤ 1)
Reached-limits_example = Reached-limits submitted

abbrev once_failed : List (ℕ × String)
once_failed = (7, "boom") ∷ []

attempts-Has_example :
    (length once_failed ≤ 1 → Has pending 1 1 (attempts once_failed fresh).stored)
    × (length once_failed ≡ suc 1 → Has failed 1 1 (attempts once_failed fresh).stored)
attempts-Has_example = attempts-Has once_failed "t1" "a.b" 5 1
