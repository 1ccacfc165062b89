-- ===== src/Tasks/Final.antt =====
-- async_task.py: which statuses may follow which.
use mathlib.Core.Path.{subst}
use apcore_python.Prelude.{
  append-nil, leb, ℕ, ◌≡◌, refl, sym, ap, ◌⊎◌, inl, inr, Bool, true, false, Option, none, some,
  List, [], ◌∷◌, ◌++◌, arith, All, if◌then◌else◌, either_case, either_way, Bool-cases, ltb,
}
use apcore_python.Tasks.{
  TaskStatus, pending, running, completed, failed, cancelled, is_active, is_terminal, Task,
  TaskInfo, Phase, created, acquiring, calling, backoff, done, Manager, refetch, begin, complete,
  interrupt, fail, settle_cancel, cleanup, reap, submit, sweep, sweep_task, new_task,
  reached_terminal, at_phase, save, active, new_info, is_old, is_expired,
}
use apcore_python.Tasks.Steps.{
  TaskStep, starts, retries, begins, gives_up, returns, raises, interrupted_call,
  interrupted_acquire, interrupted_backoff, never_started, settles, elsewhere, Step, submits,
  of_task, cleans, reaps, Reached, at_first, then_step,
}

-- The changes of status that protocol-spec.md §5.8 has.
abbrev pub edge : TaskStatus → TaskStatus → Bool
edge pending running = true
edge pending cancelled = true
edge running pending = true
edge running completed = true
edge running failed = true
edge running cancelled = true
edge _ _ = false

-- The status of a record that is not terminal, by where its runner is.
abbrev status_at : Phase → TaskStatus
status_at calling = running
status_at _ = pending

abbrev pub Sync : Option TaskInfo → Phase → Type 0
Sync none phase = Unit
Sync (some info) phase = (is_terminal info.status ≡ true) ⊎ (info.status ≡ status_at phase)

-- A record stays, goes away, or takes an edge.
abbrev pub Follows : Option TaskInfo → Option TaskInfo → Type 0
Follows none later = Unit
Follows (some info) none = Unit
Follows (some info) (some later) = (info ≡ later) ⊎ (edge info.status later.status ≡ true)

abbrev Goes : Task → Task → Type 0
Goes t t' = Sync t'.stored t'.phase × Follows t.stored t'.stored

stays : (stored : Option TaskInfo) → Follows stored stored
stays none = tt
stays (some info) = inl refl

refetch-Goes :
    (t : Task) → Sync t.stored t.phase → (status_at t.phase ≡ pending) → Goes t (refetch t)
unfolding refetch
refetch-Goes t sync here = go t.stored sync
  where
    go :
        (stored : Option TaskInfo)
        → Sync stored t.phase
        → Goes
            (record t { stored = stored })
            (elim stored as (λ _. Task) [
              | none ↦ at_phase done (record t { stored = stored })
              | some info ↦
                  if is_terminal info.status
                  then at_phase done (record t { stored = stored })
                  else record t { stored = stored; info = info; phase = acquiring }
            ])
    go none sync = (tt, tt)
    go (some info) sync =
        either_case (Goes (record t { stored = some info })) (is_terminal info.status)
          (λ terminal. (inl terminal, inl refl))
          (λ live. (inr (ground (arith, live, sync, here)), inl refl))

-- What a runner writes where the record is not terminal.
writes :
    (info : TaskInfo) (phase : Phase) (t : Task)
    → Sync t.stored t.phase
    → Sync (some info) phase
    → edge (status_at t.phase) info.status ≡ true
    → Goes t (if reached_terminal t.stored then at_phase done t else save info phase t)
writes info phase t sync good ahead = go t.stored sync
  where
    go :
        (stored : Option TaskInfo)
        → Sync stored t.phase
        → Goes
            (record t { stored = stored })
            (if reached_terminal stored
              then at_phase done (record t { stored = stored })
              else save info phase (record t { stored = stored }))
    go none sync = (good, tt)
    go (some i) sync =
        either_case (Goes (record t { stored = some i })) (is_terminal i.status)
          (λ terminal. (inl terminal, inl refl))
          (λ live. (good, inr (ground (arith, live, sync, ahead))))

settle_cancel-Goes : (now : ℕ) (t : Task) → Sync t.stored t.phase → Goes t (settle_cancel now t)
unfolding settle_cancel
settle_cancel-Goes now t sync = go t.stored sync
  where
    go :
        (stored : Option TaskInfo)
        → Sync stored t.phase
        → Goes
            (record t { stored = stored })
            (elim stored as (λ _. Task) [
              | none ↦ record t { stored = stored }
              | some info ↦
                  if is_active info.status
                  then record t {
                    stored = some (record info { status = cancelled; completed_at = some now });
                  }
                  else record t { stored = stored }
            ])
    go none sync = (tt, tt)
    go (some info) sync =
        either_case (Goes (record t { stored = some info })) (is_active info.status)
          (λ live. (inl refl, inr (cancels info.status live))) (λ over. (sync, inl refl))
      where
        cancels : (s : TaskStatus) → is_active s ≡ true → edge s cancelled ≡ true
        cancels pending live = refl
        cancels running live = refl
        cancels completed live = ground arith
        cancels failed live = ground arith
        cancels cancelled live = ground arith

TaskStep-Goes :
    {shared : Bool} {takes gives : ℕ} {t t' : Task}
    → TaskStep shared takes t t' gives
    → Sync t.stored t.phase
    → Goes t t'
unfolding begin complete interrupt fail
TaskStep-Goes (starts t at) sync = refetch-Goes t sync (ap status_at at)
TaskStep-Goes (retries t at) sync = refetch-Goes t sync (ap status_at at)
TaskStep-Goes (begins now t at on) sync =
    writes _ calling t sync (inr refl) (ap (λ p. edge (status_at p) running) at)
TaskStep-Goes (gives_up now t at off) sync =
    writes _ calling t sync (inr refl) (ap (λ p. edge (status_at p) running) at)
TaskStep-Goes (returns now result t at) sync =
    writes _ done t sync (inl refl) (ap (λ p. edge (status_at p) completed) at)
TaskStep-Goes (raises now error t at) sync =
    either_way (Goes t) (ltb t.info.retry_count t.info.max_retries)
      (writes _ backoff t sync (inr refl) (ap (λ p. edge (status_at p) pending) at))
      (writes _ done t sync (inl refl) (ap (λ p. edge (status_at p) failed) at))
TaskStep-Goes (interrupted_call now t at) sync =
    writes _ done t sync (inl refl) (ap (λ p. edge (status_at p) cancelled) at)
TaskStep-Goes (interrupted_acquire now t at) sync =
    writes _ done t sync (inl refl) (ap (λ p. edge (status_at p) cancelled) at)
TaskStep-Goes (interrupted_backoff now t at) sync =
    writes _ done t sync (inl refl) (ap (λ p. edge (status_at p) cancelled) at)
TaskStep-Goes (never_started t at) sync = (
  subst (λ p. Sync t.stored p → Sync t.stored done) (sym at) (same t.stored) sync,
  stays t.stored,
)
  where
    same : (stored : Option TaskInfo) → Sync stored created → Sync stored done
    same none s = s
    same (some info) s = s
TaskStep-Goes (settles now t at) sync = settle_cancel-Goes now t sync
TaskStep-Goes (elsewhere now t shared) sync = settle_cancel-Goes now t sync

sweep_task-Goes :
    (gone : TaskInfo → Bool) (t : Task) → Sync t.stored t.phase → Goes t (sweep_task gone t)
sweep_task-Goes gone t sync = go t.stored sync
  where
    go :
        (stored : Option TaskInfo)
        → Sync stored t.phase
        → Goes (record t { stored = stored }) (sweep_task gone (record t { stored = stored }))
    go none sync = (tt, tt)
    go (some info) sync =
        either_way (Goes (record t { stored = some info })) (gone info) (tt, tt) (sync, inl refl)

abbrev Synced : List Task → Type 0
Synced tasks = All (λ t. Sync t.stored t.phase) tasks

-- Task by task, the records follow; there may be new tasks behind them.
abbrev pub Later : List Task → List Task → Type 0
Later [] us = Unit
Later (t ∷ ts) [] = false ≡ true
Later (t ∷ ts) (u ∷ us) = Follows t.stored u.stored × Later ts us

Later-refl : (ts us : List Task) → Later ts (ts ++ us)
Later-refl [] us = tt
Later-refl (t ∷ ts) us = (stays t.stored, Later-refl ts us)

Synced-snoc :
    (ts : List Task) (u : Task) → Synced ts → Sync u.stored u.phase → Synced (ts ++ u ∷ [])
Synced-snoc [] u s new = (new, tt)
Synced-snoc (t ∷ ts) u (s, ss) new = (s, Synced-snoc ts u ss new)

in_place :
    (front : List Task) (t t' : Task) (back : List Task)
    → (Sync t.stored t.phase → Goes t t')
    → Synced (front ++ t ∷ back)
    → Synced (front ++ t' ∷ back) × Later (front ++ t ∷ back) (front ++ t' ∷ back)
in_place [] t t' back goes (s, ss) =
    let (sync, follows) = goes s in
    ((sync, ss), (follows, subst (Later back) (append-nil back) (Later-refl back [])))
in_place (u ∷ front) t t' back goes (s, ss) =
    let (synced, later) = in_place front t t' back goes ss in ((s, synced), (stays u.stored, later))

sweep-Later :
    (gone : TaskInfo → Bool) (ts : List Task)
    → Synced ts
    → Synced (sweep gone ts) × Later ts (sweep gone ts)
sweep-Later gone [] s = (tt, tt)
sweep-Later gone (t ∷ ts) (s, ss) =
    let (sync, follows) = sweep_task-Goes gone t s in
    let (synced, later) = sweep-Later gone ts ss in ((sync, synced), (follows, later))

Step-Later :
    {shared : Bool} {m n : Manager}
    → Step shared m n
    → Synced m.tasks
    → Synced n.tasks × Later m.tasks n.tasks
unfolding cleanup reap submit
Step-Later (submits task_id module_id now max_retries m n e) s =
    elim (Bool-cases (leb m.max_tasks (active m.tasks))) [
      | inl full ↦ ground (arith, full, e)
      | inr room ↦
          let added : m.tasks ++ new_task (new_info task_id module_id now max_retries) ∷ []
              ≡ n.tasks =
            ground (arith, room, e) in
          subst (λ ts. Synced ts × Later m.tasks ts) added
            (
              Synced-snoc m.tasks (new_task (new_info task_id module_id now max_retries)) s
                  (inr refl),
              Later-refl m.tasks _,
            )
    ]
Step-Later (of_task front t back t' takes gives free max_tasks step) s =
    in_place front t t' back (TaskStep-Goes step) s
Step-Later (cleans now max_age m) s = sweep-Later (is_old now max_age) m.tasks s
Step-Later (reaps before m) s = sweep-Later (is_expired before) m.tasks s

Reached-Synced :
    {shared : Bool} {max_concurrent max_tasks : ℕ} {m : Manager}
    → Reached shared max_concurrent max_tasks m
    → Synced m.tasks
Reached-Synced at_first = tt
Reached-Synced (then_step reached step) = (Step-Later step (Reached-Synced reached)).0

-- However submissions, runners, cancellations, interruptions and sweeps interleave, also where other
-- managers of the same event loop cancel tasks of the same store, and with a store that never
-- suspends, one step changes the status of a record only along an edge of the task states: pending to
-- running and back, running to completed or failed, and either of the two to cancelled. So a terminal
-- record is never changed, whatever a runner still holds; it is only taken away.
pub Reached-Later :
    {shared : Bool} {max_concurrent max_tasks : ℕ} {m n : Manager}
    → Reached shared max_concurrent max_tasks m
    → Step shared m n
    → Later m.tasks n.tasks
Reached-Later reached step = (Step-Later step (Reached-Synced reached)).1
