-- ===== src/Registry/Drained.antt =====
-- registry/registry.py: while a module drains.
use mathlib.Core.Path.{subst}
use apcore_python.Prelude.{
  ◌+◌, ◌≤◌, ◌≡◌, refl, sym, ap, ◌∙◌, inl, inr, Bool, true, false, not, Option, none, some, List,
  ◌∷◌, Text, text_eq, text_eq_iff, get, assign, discard, get-assign, get-discard, is_some, arith,
  leb, if◌then◌else◌, either_case, Bool-cases,
}
use apcore_python.Conflicts.{is_in}
use apcore_python.Registry.{Registry}
use apcore_python.Registry.Draining.{
  ref_count, acquire, release, set_event, left_of, start_drain, or_else, is_draining,
}

-- What other threads do meanwhile: executions of modules begin and end.
pub data Meanwhile : Registry → Registry → Type 0 where
  at_once : {r : Registry} → Meanwhile r r
  acquired :
      {r s t : Registry} (module_id : Text)
      → acquire module_id r ≡ some s
      → Meanwhile s t
      → Meanwhile r t
  released : {r t : Registry} (module_id : Text) → Meanwhile (release module_id r) t → Meanwhile r t

-- What the event of a module is while it drains, where some execution was under way at the start.
abbrev pub event_of : Bool → Text → Registry → Option Bool
event_of awaited module_id r = if awaited then some (leb (ref_count module_id r) 0) else none

-- A draining module is marked, and its event is set just where no execution is under way.
pub record Draining (awaited : Bool) (module_id : Text) (r : Registry) : Type 0 where
  pub marked : is_draining module_id r ≡ true
  pub told : get text_eq module_id r.drain_events ≡ event_of awaited module_id r

same_get :
    {V : Type 0} (k other : Text) (entries : List (Text × V))
    → text_eq k other ≡ true
    → get text_eq k entries ≡ get text_eq other entries
same_get k other entries e = ap (λ id. get text_eq id entries) ((text_eq_iff k other).0 e)

acquire-cases :
    (other : Text) (r s : Registry)
    → acquire other r ≡ some s
    → (is_in other r.draining ≡ false)
      × (record r { ref_counts = assign text_eq other (ref_count other r + 1) r.ref_counts } ≡ s)
unfolding acquire
acquire-cases other r s e = elim (Bool-cases (is_in other r.draining)) [
  | inl drains ↦ ground (arith, drains, e)
  | inr open_door ↦ elim (Bool-cases (is_some (get text_eq other r.modules))) [
    | inl there ↦ (open_door, ground (arith, there, open_door, e))
    | inr absent ↦ ground (arith, absent, open_door, e)
  ]
]

acquire-Draining :
    (awaited : Bool) (module_id other : Text) (r s : Registry)
    → acquire other r ≡ some s
    → Draining awaited module_id r
    → Draining awaited module_id s × (ref_count module_id s ≤ ref_count module_id r)
acquire-Draining awaited module_id other r s e d =
    let (open_door, made) = acquire-cases other r s e in
    subst
      (λ (s : Registry).
        Draining awaited module_id s × (ref_count module_id s ≤ ref_count module_id r))
      made
      (
        record {
          marked = d.marked;
          told =
              d.told
              ∙ ap (λ o. if awaited then some (leb (or_else 0 o) 0) else none)
                  (sym (kept open_door));
        },
        omega (arith, ap (or_else 0) (kept open_door)),
      )
  where
    apart : is_in other r.draining ≡ false → text_eq other module_id ≡ false
    apart open_door = elim (Bool-cases (text_eq other module_id)) [
      | inr e ↦ e
      | inl e ↦
          let here : is_in other r.draining ≡ true =
            ap (λ id. is_in id r.draining) ((text_eq_iff other module_id).0 e) ∙ d.marked in
          ground (arith, here, open_door)
    ]

    kept :
        is_in other r.draining ≡ false
        → get text_eq module_id (assign text_eq other (ref_count other r + 1) r.ref_counts)
          ≡ get text_eq module_id r.ref_counts
    kept open_door =
        get-assign text_eq text_eq_iff other module_id (ref_count other r + 1) r.ref_counts
        ∙ ap (λ b. if b then some (ref_count other r + 1) else get text_eq module_id r.ref_counts)
            (apart open_door)

release-Draining :
    (awaited : Bool) (module_id other : Text) (r : Registry)
    → Draining awaited module_id r
    → Draining awaited module_id (release other r)
      × (ref_count module_id (release other r) ≤ ref_count module_id r)
unfolding release
release-Draining awaited module_id other r d =
    either_case
      (λ (s : Registry).
        Draining awaited module_id s × (ref_count module_id s ≤ ref_count module_id r))
      (leb (left_of other r) 0)
      (λ last. (record { marked = d.marked; told = last_told last }, last_count))
      (λ more. (record { marked = d.marked; told = more_told more }, more_count))
  where
    last_count :
        or_else 0 (get text_eq module_id (discard text_eq other r.ref_counts))
        ≤ ref_count module_id r
    last_count = ground (arith, get-discard text_eq text_eq_iff other module_id r.ref_counts)

    more_count :
        or_else 0 (get text_eq module_id (assign text_eq other (left_of other r) r.ref_counts))
        ≤ ref_count module_id r
    more_count = ground (
      arith,
      get-assign text_eq text_eq_iff other module_id (left_of other r) r.ref_counts,
      same_get other module_id r.ref_counts,
    )

    last_told :
        leb (left_of other r) 0 ≡ true
        → get text_eq module_id (set_event other r.drain_events) ≡ (
            if awaited
            then some
                (leb (or_else 0 (get text_eq module_id (discard text_eq other r.ref_counts))) 0)
            else none)
    last_told last = ground (
      arith,
      d.told,
      get-discard text_eq text_eq_iff other module_id r.ref_counts,
      get-assign text_eq text_eq_iff other module_id true r.drain_events,
      same_get other module_id r.drain_events,
    )

    more_told :
        leb (left_of other r) 0 ≡ false
        → get text_eq module_id r.drain_events ≡ (
            if awaited
            then some (
                leb
                  (or_else 0
                    (get text_eq module_id (assign text_eq other (left_of other r) r.ref_counts)))
                  0)
            else none)
    more_told more = ground (
      arith,
      more,
      d.told,
      get-assign text_eq text_eq_iff other module_id (left_of other r) r.ref_counts,
      same_get other module_id r.ref_counts,
    )

start_drain-Draining :
    (module_id : Text) (r s : Registry)
    → get text_eq module_id r.drain_events ≡ none
    → start_drain module_id r ≡ some s
    → Draining (not (leb (ref_count module_id r) 0)) module_id s
      × (ref_count module_id s ≡ ref_count module_id r)
unfolding start_drain
start_drain-Draining module_id r s fresh e =
    elim (Bool-cases (is_some (get text_eq module_id r.modules))) [
      | inr absent ↦ ground (arith, absent, e)
      | inl there ↦ elim (Bool-cases (leb (ref_count module_id r) 0)) [
        | inl idle ↦
            let made : record r { draining = module_id ∷ r.draining } ≡ s =
              ground (arith, there, idle, e) in
            subst Kept made (record { marked = mark; told = ground (arith, fresh, idle) }, refl)
        | inr busy ↦
            let made : record r {
              draining = module_id ∷ r.draining;
              drain_events = assign text_eq module_id false r.drain_events;
            }
                ≡ s =
              ground (arith, there, busy, e) in
            subst Kept made (
              record {
                marked = mark;
                told = ground (
                  arith,
                  busy,
                  get-assign text_eq text_eq_iff module_id module_id false r.drain_events,
                  (text_eq_iff module_id module_id).1 refl,
                );
              },
              refl,
            )
      ]
    ]
  where
    Kept : Registry → Type 0
    Kept s =
        Draining (not (leb (ref_count module_id r) 0)) module_id s
        × (ref_count module_id s ≡ ref_count module_id r)

    mark : is_in module_id (module_id ∷ r.draining) ≡ true
    mark = ground (arith, (text_eq_iff module_id module_id).1 refl)

Meanwhile-Draining :
    {r t : Registry} (awaited : Bool) (module_id : Text)
    → Meanwhile r t
    → Draining awaited module_id r
    → Draining awaited module_id t × (ref_count module_id t ≤ ref_count module_id r)
Meanwhile-Draining awaited module_id at_once d = (d, omega arith)
Meanwhile-Draining awaited module_id (acquired {r} {s} other e rest) d =
    let (kept, fewer) = acquire-Draining awaited module_id other r s e d in
    let (at_end, rest_fewer) = Meanwhile-Draining awaited module_id rest kept in
    (at_end, omega arith)
Meanwhile-Draining awaited module_id (released {r} other rest) d =
    let (kept, fewer) = release-Draining awaited module_id other r d in
    let (at_end, rest_fewer) = Meanwhile-Draining awaited module_id rest kept in
    (at_end, omega arith)

-- Once `safe_unregister` has marked a module that no other call of it waits for, then whichever
-- executions of whichever modules begin and end: no execution of this module begins, the number under
-- way does not grow, and there is an event just where some were under way at the start, which is set
-- just where none is left.
pub Meanwhile-Drains :
    (module_id : Text) (r : Registry) {s t : Registry}
    → get text_eq module_id r.drain_events ≡ none
    → start_drain module_id r ≡ some s
    → Meanwhile s t
    → (acquire module_id t ≡ none)
      × (ref_count module_id t ≤ ref_count module_id r)
      × (get text_eq module_id t.drain_events
          ≡ event_of (not (leb (ref_count module_id r) 0)) module_id t)
unfolding acquire
Meanwhile-Drains module_id r {s} fresh e run =
    let (begun, no_more) = start_drain-Draining module_id r s fresh e in
    let (d, fewer) = Meanwhile-Draining (not (leb (ref_count module_id r) 0)) module_id run begun in
    (ground (arith, d.marked), omega arith, d.told)
