-- ===== src/Tasks/Attempts.antt =====
-- async_task.py: the attempts of a task.
use mathlib.Core.Path.{subst}
use apcore_python.Prelude.{
  length, ◌<◌, Bool-cases, length, ℕ, suc, ◌+◌, ◌≤◌, ◌≡◌, refl, sym, inl, inr, true, false, Option,
  none, some, List, [], ◌∷◌, String, arith, ltb,
}
use apcore_python.Tasks.{
  TaskStatus, pending, failed, Task, TaskInfo, refetch, begin, fail, new_task, new_info,
}

-- Attempts of a task of which each one fails, with the times and the errors: from the start, or from
-- the end of a backoff, to the next backoff or the end.
abbrev attempt : ℕ → String → Task → Task
attempt now error t = fail now error (begin now (refetch t))

unfoldable pub attempts : List (ℕ × String) → Task → Task
unfolding fail begin refetch
attempts [] t = t
attempts ((now, error) ∷ rest) t = attempts rest (attempt now error t)

-- A record with this status and so many retries of so many.
abbrev pub Has : TaskStatus → ℕ → ℕ → Option TaskInfo → Type 0
Has status n max_retries none = false ≡ true
Has status n max_retries (some info) =
    (info.status ≡ status) × ((info.retry_count ≡ n) × (info.max_retries ≡ max_retries))

attempt_fails :
    (now : ℕ) (error : String) (n max_retries : ℕ) (t : Task)
    → Has pending n max_retries t.stored
    → (n < max_retries → Has pending (suc n) max_retries (attempt now error t).stored)
      × (n ≡ max_retries → Has failed n max_retries (attempt now error t).stored)
unfolding fail begin refetch
attempt_fails now error n max_retries t has = go t.stored has
  where
    go :
        (stored : Option TaskInfo)
        → Has pending n max_retries stored
        → (n < max_retries
            → Has pending
                (suc n)
                max_retries
                (attempt now error (record t { stored = stored })).stored)
          × (n ≡ max_retries
              → Has failed n max_retries (attempt now error (record t { stored = stored })).stored)
    go none has = ground (arith, has)
    go (some info) (status, (count, limit)) = (
      λ less. ground (arith, status, count, limit, less),
      λ same. ground (arith, status, count, limit, same),
    )

nothing_left :
    (rest : List (ℕ × String)) (t : Task) (n max_retries : ℕ)
    → length rest ≡ 0
    → Has failed n max_retries t.stored
    → Has failed n max_retries (attempts rest t).stored
unfolding attempts
nothing_left [] t n max_retries e has = has
nothing_left (f ∷ rest) t n max_retries e has = absurd (omega (arith, e))

attempts_from :
    (failures : List (ℕ × String)) (n max_retries : ℕ) (t : Task)
    → n ≤ max_retries
    → Has pending n max_retries t.stored
    → (n + length failures ≤ max_retries
        → Has pending (n + length failures) max_retries (attempts failures t).stored)
      × (n + length failures ≡ suc max_retries
          → Has failed max_retries max_retries (attempts failures t).stored)
unfolding attempts
attempts_from [] n max_retries t le has =
    let same : n + 0 ≡ n = omega arith in
    (
      λ few. subst (λ n. Has pending n max_retries t.stored) (sym same) has,
      λ over. absurd (omega (arith, over, le)),
    )
attempts_from ((now, error) ∷ rest) n max_retries t le has =
    let (again, ends) = attempt_fails now error n max_retries t has in
    let next = attempt now error t in
    elim (Bool-cases (ltb n max_retries)) [
      | inl less ↦
          let lt : n < max_retries = ground (arith, less) in
          let (few', over') =
            attempts_from rest (suc n) max_retries next (omega (arith, lt)) (again lt) in
          let shift : suc n + length rest ≡ n + suc (length rest) = omega arith in
          (
            λ few.
                subst (λ k. Has pending k max_retries (attempts rest next).stored) shift
                  (few' (omega (arith, few))),
            λ over. over' (omega (arith, over)),
          )
      | inr no_less ↦
          let same : n ≡ max_retries = ground (arith, no_less, le) in
          (
            λ few. absurd (omega (arith, few, same)),
            λ over.
                nothing_left rest next max_retries max_retries (omega (arith, over, same))
                  (subst (λ k. Has failed k max_retries next.stored) same (ends same)),
          )
    ]

-- A task of which every attempt fails is tried `max_retries + 1` times and then failed: after up to
-- `max_retries` failures it is pending again with as many retries counted, after one more it is
-- failed with `max_retries` retries.
pub attempts-Has :
    (failures : List (ℕ × String)) (task_id module_id : String) (now max_retries : ℕ)
    → (length failures ≤ max_retries
        → Has pending
            (length failures)
            max_retries
            (attempts failures (new_task (new_info task_id module_id now max_retries))).stored)
      × (length failures ≡ suc max_retries
          → Has failed max_retries max_retries
              (attempts failures (new_task (new_info task_id module_id now max_retries))).stored)
attempts-Has failures task_id module_id now max_retries =
    let (few', over') =
      attempts_from failures 0 max_retries (new_task (new_info task_id module_id now max_retries))
        (omega arith) (refl, (refl, refl)) in
    let zero_add : 0 + length failures ≡ length failures = omega arith in
    (
      λ few.
          subst
            (λ k.
              Has pending k max_retries
                (attempts failures (new_task (new_info task_id module_id now max_retries))).stored)
            zero_add (few' (omega (arith, few))),
      λ over. over' (omega (arith, over)),
    )
