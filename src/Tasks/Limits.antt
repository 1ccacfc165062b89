-- ===== src/Tasks/Limits.antt =====
-- async_task.py: `max_concurrent` and `max_tasks`.
use mathlib.Core.Path.{subst}
use apcore_python.Prelude.{
  leb, ℕ, ◌+◌, ◌≤◌, ◌≡◌, refl, ap, ◌⊎◌, inl, inr, Bool, true, false, Option, none, some, List, [],
  ◌∷◌, ◌++◌, String, arith, All, if◌then◌else◌, either_case, either_way, Bool-cases, ltb,
}
use apcore_python.Tasks.{
  cancelled, is_active, is_terminal, Task, TaskInfo, Phase, acquiring, calling, backoff, done,
  Manager, refetch, begin, complete, interrupt, fail, settle_cancel, cleanup, reap, submit, sweep,
  sweep_task, new_task, reached_terminal, at_phase, save, active, new_info, is_old, is_expired,
  stored_active,
}
use apcore_python.Tasks.Steps.{
  TaskStep, starts, retries, begins, gives_up, returns, raises, interrupted_call,
  interrupted_acquire, interrupted_backoff, never_started, settles, elsewhere, Step, submits,
  of_task, cleans, reaps, Reached, at_first, then_step,
}

abbrev in_call : Phase → ℕ
in_call calling = 1
in_call _ = 0

-- The modules that run.
abbrev pub calls : List Task → ℕ
calls [] = 0
calls (t ∷ ts) = in_call t.phase + calls ts

refetch-phase : (t : Task) → in_call (refetch t).phase ≡ 0
unfolding refetch
refetch-phase t = go t.stored
  where
    go :
        (stored : Option TaskInfo)
        → in_call
            (elim stored as (λ _. Task) [
              | none ↦ at_phase done t
              | some info ↦
                  if is_terminal info.status
                  then at_phase done t
                  else record t { info = info; phase = acquiring }
            ]).phase
          ≡ 0
    go none = refl
    go (some info) =
        either_way (λ (t : Task). in_call t.phase ≡ 0) (is_terminal info.status) refl refl

settle_cancel-phase : (now : ℕ) (t : Task) → (settle_cancel now t).phase ≡ t.phase
unfolding settle_cancel
settle_cancel-phase now t = go t.stored
  where
    go :
        (stored : Option TaskInfo)
        → (elim stored as (λ _. Task) [
          | none ↦ t
          | some info ↦
              if is_active info.status
              then record t {
                stored = some (record info { status = cancelled; completed_at = some now });
              }
              else t
        ]).phase
          ≡ t.phase
    go none = refl
    go (some info) = either_way (λ (u : Task). u.phase ≡ t.phase) (is_active info.status) refl refl

written_phase :
    (b : Bool) (t : Task) (info : TaskInfo) (phase : Phase)
    → in_call phase ≡ 0
    → in_call (if b then at_phase done t else save info phase t).phase ≡ 0
written_phase true t info phase e = refl
written_phase false t info phase e = e

fail-phase : (now : ℕ) (error : String) (t : Task) → in_call (fail now error t).phase ≡ 0
unfolding fail
fail-phase now error t =
    either_way (λ (u : Task). in_call u.phase ≡ 0) (ltb t.info.retry_count t.info.max_retries)
      (written_phase (reached_terminal t.stored) t _ backoff refl)
      (written_phase (reached_terminal t.stored) t _ done refl)

-- The semaphore counts the calls.
TaskStep-calls :
    {shared : Bool} {takes gives : ℕ} {t t' : Task}
    → TaskStep shared takes t t' gives
    → in_call t.phase + takes ≡ in_call t'.phase + gives
unfolding complete interrupt
TaskStep-calls (starts t at) = omega (arith, ap in_call at, refetch-phase t)
TaskStep-calls (retries t at) = omega (arith, ap in_call at, refetch-phase t)
TaskStep-calls (begins now t at on) = omega (arith, ap in_call at, ap in_call on)
TaskStep-calls (gives_up now t at off) = omega (arith, ap in_call at, ap in_call off)
TaskStep-calls (returns now result t at) =
    omega (arith, ap in_call at, written_phase (reached_terminal t.stored) t _ done refl)
TaskStep-calls (raises now error t at) = omega (arith, ap in_call at, fail-phase now error t)
TaskStep-calls (interrupted_call now t at) =
    omega (arith, ap in_call at, written_phase (reached_terminal t.stored) t _ done refl)
TaskStep-calls (interrupted_acquire now t at) =
    omega (arith, ap in_call at, written_phase (reached_terminal t.stored) t _ done refl)
TaskStep-calls (interrupted_backoff now t at) =
    omega (arith, ap in_call at, written_phase (reached_terminal t.stored) t _ done refl)
TaskStep-calls (never_started t at) = omega (arith, ap in_call at)
TaskStep-calls (settles now t at) = omega (arith, ap in_call (settle_cancel-phase now t))
TaskStep-calls (elsewhere now t shared) = omega (arith, ap in_call (settle_cancel-phase now t))

calls-append : (ts us : List Task) → calls (ts ++ us) ≡ calls ts + calls us
calls-append [] us = omega arith
calls-append (t ∷ ts) us = omega (arith, calls-append ts us)

calls-sweep : (gone : TaskInfo → Bool) (ts : List Task) → calls (sweep gone ts) ≡ calls ts
calls-sweep gone [] = refl
calls-sweep gone (t ∷ ts) = omega (arith, calls-sweep gone ts, ap in_call (same t.stored))
  where
    same :
        (stored : Option TaskInfo)
        → (sweep_task gone (record t { stored = stored })).phase ≡ t.phase
    same none = refl
    same (some info) = either_way (λ (u : Task). u.phase ≡ t.phase) (gone info) refl refl

submit-cases :
    (task_id module_id : String) (now max_retries : ℕ) (m n : Manager)
    → submit task_id module_id now max_retries m ≡ some n
    → (leb m.max_tasks (active m.tasks) ≡ false)
      × (record m { tasks = m.tasks ++ new_task (new_info task_id module_id now max_retries) ∷ [] }
          ≡ n)
unfolding submit
submit-cases task_id module_id now max_retries m n e =
    elim (Bool-cases (leb m.max_tasks (active m.tasks))) [
      | inl full ↦ ground (arith, full, e)
      | inr room ↦ (room, ground (arith, room, e))
    ]

Step-calls :
    {shared : Bool} {m n : Manager}
    → Step shared m n
    → calls n.tasks + n.free ≡ calls m.tasks + m.free
unfolding cleanup reap
Step-calls (submits task_id module_id now max_retries m n e) =
    let (room, added) = submit-cases task_id module_id now max_retries m n e in
    subst (λ (n : Manager). calls n.tasks + n.free ≡ calls m.tasks + m.free) added
      (omega
        (arith, calls-append m.tasks (new_task (new_info task_id module_id now max_retries) ∷ [])))
Step-calls (of_task front t back t' takes gives free max_tasks step) =
    omega
      (arith, calls-append front (t ∷ back), calls-append front (t' ∷ back), TaskStep-calls step)
Step-calls (cleans now max_age m) = omega (arith, calls-sweep (is_old now max_age) m.tasks)
Step-calls (reaps before m) = omega (arith, calls-sweep (is_expired before) m.tasks)

Reached-calls :
    {shared : Bool} {max_concurrent max_tasks : ℕ} {m : Manager}
    → Reached shared max_concurrent max_tasks m
    → calls m.tasks + m.free ≡ max_concurrent
Reached-calls at_first = omega arith
Reached-calls (then_step reached step) = omega (arith, Reached-calls reached, Step-calls step)

-- A runner that is not done has an active record.
abbrev Live : Task → Type 0
Live t = (t.phase ≡ done) ⊎ (stored_active t.stored ≡ true)

weight : Option TaskInfo → ℕ
weight stored = if stored_active stored then 1 else 0

-- Without other managers a step adds no active record.
abbrev Keeps : Task → Task → Type 0
Keeps t t' = Live t' × (weight t'.stored ≤ weight t.stored)

TaskStep-Keeps :
    {takes gives : ℕ} {t t' : Task} → TaskStep false takes t t' gives → Live t → Keeps t t'
unfolding refetch begin complete interrupt fail settle_cancel weight
TaskStep-Keeps (starts t at) live = ground (arith, live, at)
TaskStep-Keeps (retries t at) live = ground (arith, live, at)
TaskStep-Keeps (begins now t at on) live = ground (arith, live, at)
TaskStep-Keeps (gives_up now t at off) live = ground (arith, live, at)
TaskStep-Keeps (returns now result t at) live = ground (arith, live, at)
TaskStep-Keeps (raises now error t at) live = ground (arith, live, at)
TaskStep-Keeps (interrupted_call now t at) live = ground (arith, live, at)
TaskStep-Keeps (interrupted_acquire now t at) live = ground (arith, live, at)
TaskStep-Keeps (interrupted_backoff now t at) live = ground (arith, live, at)
TaskStep-Keeps (never_started t at) live = (inl refl, omega arith)
TaskStep-Keeps (settles now t at) live = ground (arith, live, at)
TaskStep-Keeps (elsewhere now t shared) live = ground (arith, shared)

active-append : (ts us : List Task) → active (ts ++ us) ≡ active ts + active us
active-append [] us = omega arith
active-append (t ∷ ts) us = omega (arith, active-append ts us)

All-replace :
    (front : List Task) (t t' : Task) (back : List Task)
    → (Live t → Live t')
    → All Live (front ++ t ∷ back)
    → All Live (front ++ t' ∷ back)
All-replace [] t t' back f (l, ls) = (f l, ls)
All-replace (u ∷ front) t t' back f (l, ls) = (l, All-replace front t t' back f ls)

All-middle :
    (front : List Task) (t : Task) (back : List Task) → All Live (front ++ t ∷ back) → Live t
All-middle [] t back (l, ls) = l
All-middle (u ∷ front) t back (l, ls) = All-middle front t back ls

All-snoc : (ts : List Task) (t : Task) → All Live ts → Live t → All Live (ts ++ t ∷ [])
All-snoc [] t ls l = (l, tt)
All-snoc (u ∷ ts) t (l', ls) l = (l', All-snoc ts t ls l)

-- A sweep that takes only terminal records.
module _ (gone : TaskInfo → Bool)
    (terminal : (info : TaskInfo) → gone info ≡ true → is_terminal info.status ≡ true) where
  sweep_task-Keeps : (t : Task) → Live t → Keeps t (sweep_task gone t)
  unfolding weight
  sweep_task-Keeps t live = go t.stored live
    where
      go :
          (stored : Option TaskInfo)
          → Live (record t { stored = stored })
          → Keeps (record t { stored = stored }) (sweep_task gone (record t { stored = stored }))
      go none live = (live, omega arith)
      go (some info) live =
          either_case (Keeps (record t { stored = some info })) (gone info)
            (λ swept. ground (arith, live, terminal info swept)) (λ kept. (live, omega arith))

  sweep-Keeps :
      (ts : List Task)
      → All Live ts
      → All Live (sweep gone ts) × (active (sweep gone ts) ≤ active ts)
  unfolding weight
  sweep-Keeps [] ls = (tt, omega arith)
  sweep-Keeps (t ∷ ts) (l, ls) =
      let (l', fewer) = sweep_task-Keeps t l in
      let (ls', fewer') = sweep-Keeps ts ls in ((l', ls'), omega (arith, fewer, fewer'))

abbrev Bounded : ℕ → Manager → Type 0
Bounded max_tasks m = All Live m.tasks × ((m.max_tasks ≡ max_tasks) × (active m.tasks ≤ max_tasks))

Step-Bounded :
    {max_tasks : ℕ} {m n : Manager} → Step false m n → Bounded max_tasks m → Bounded max_tasks n
unfolding cleanup reap weight
Step-Bounded {max_tasks} (submits task_id module_id now max_retries m n e) (ls, (same, few)) =
    let (room, added) = submit-cases task_id module_id now max_retries m n e in
    let new = new_task (new_info task_id module_id now max_retries) in
    subst (Bounded max_tasks) added (
      All-snoc m.tasks new ls (inr refl),
      (same, ground (arith, room, same, active-append m.tasks (new ∷ []))),
    )
Step-Bounded (of_task front t back t' takes gives free limit step) (ls, (same, few)) =
    let (_, fewer) = TaskStep-Keeps step (All-middle front t back ls) in
    (
      All-replace front t t' back (λ live. (TaskStep-Keeps step live).0) ls,
      (
        same,
        omega (arith, few, fewer, active-append front (t ∷ back), active-append front (t' ∷ back)),
      ),
    )
Step-Bounded (cleans now max_age m) (ls, (same, few)) =
    let (ls', fewer) =
      sweep-Keeps (is_old now max_age) (λ info old. ground (arith, old)) m.tasks ls in
    (ls', (same, omega (arith, few, fewer)))
Step-Bounded (reaps before m) (ls, (same, few)) =
    let (ls', fewer) =
      sweep-Keeps (is_expired before) (λ info old. ground (arith, old)) m.tasks ls in
    (ls', (same, omega (arith, few, fewer)))

Reached-Bounded :
    {max_concurrent max_tasks : ℕ} {m : Manager}
    → Reached false max_concurrent max_tasks m
    → Bounded max_tasks m
Reached-Bounded at_first = (tt, (refl, omega arith))
Reached-Bounded (then_step reached step) = Step-Bounded step (Reached-Bounded reached)

-- However the steps of one manager interleave, never more than `max_concurrent` modules run at once
-- and never more than `max_tasks` records are active.
pub Reached-limits :
    {max_concurrent max_tasks : ℕ} {m : Manager}
    → Reached false max_concurrent max_tasks m
    → (calls m.tasks ≤ max_concurrent) × (active m.tasks ≤ max_tasks)
Reached-limits reached =
    let (_, (_, few)) = Reached-Bounded reached in (omega (arith, Reached-calls reached), few)
