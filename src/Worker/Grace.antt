-- ===== src/Worker/Grace.antt =====
-- When a running stage is abandoned, and how long the worker waits.
use scribe_local.Common.{
  ◌↔◌, ℕ, ◌≤◌, ◌≡◌, refl, ap, true, false, List, [], ◌∷◌, ◌++◌, map, All, Option, none, some,
  Bool-cases, inl, inr, ◌⊎◌, arith,
}
use scribe_local.Types.Kind.{JobKind, bypasses_schedule}
use scribe_local.Schedule.Policy.{ScheduleDecision}
use scribe_local.Worker.Window.{
  min_defer, retry_delay, StageResult, finished, window_closed, Check, Event, stage_done, checked,
  since_or, grace_over, watch, await_stage, run_stage_within_window,
}

-- When a change is announced in `n` seconds, a deferred job waits at least a minute and at least
-- until that change, and exactly until it if and only if the change is a minute or more away.
pub retry_delay_range :
    (d : ScheduleDecision) (n : ℕ)
    → d.next_change_secs ≡ some n
    → (min_defer ≤ retry_delay d) × (n ≤ retry_delay d) × ((retry_delay d ≡ n) ↔ (min_defer ≤ n))
unfolding retry_delay
retry_delay_range d n e = rw e (ground arith)

abbrev pub last_of : Check → List Check → Check
last_of c [] = c
last_of c (d ∷ ds) = last_of d ds

-- The events go through checks `c` and `more`, which all find the window shut; at the last of them
-- it has been shut since `since` for the grace period, and the wait is that check's.
abbrev pub Overruns : ℕ → ℕ → List Event → Check → List Check → List Event → Type 0
Overruns since r events c more rest =
    (events ≡ map checked (c ∷ more) ++ rest)
    × All (λ d. d.decision.allowed ≡ false) (c ∷ more)
    × (grace_over since (last_of c more) ≡ true)
    × (r ≡ retry_delay (last_of c more).decision)

-- Some unbroken run of shut checks among the events overruns, counted from its own first check.
abbrev pub OverrunsLater : ℕ → List Event → Type 0
OverrunsLater r events =
    (before : List Event) × (c : Check) × (more : List Check) × (after : List Event) × (rest : List
      Event)
    × (events ≡ before ++ after)
    × Overruns c.at r after c more rest

abbrev OverrunsSince : Option ℕ → ℕ → List Event → Type 0
OverrunsSince none r events = ⊥
OverrunsSince (some s) r events =
    (c : Check) × (more : List Check) × (rest : List Event) × Overruns s r events c more rest

begin_here :
    (o : Option ℕ) (r : ℕ) (c : Check) (more : List Check) (es rest : List Event)
    → Overruns (since_or o c.at) r (checked c ∷ es) c more rest
    → OverrunsSince o r (checked c ∷ es) ⊎ OverrunsLater r (checked c ∷ es)
begin_here none r c more es rest v = inr ([], c, more, checked c ∷ es, rest, refl, v)
begin_here (some s) r c more es rest v = inl (c, more, rest, v)

skip_event : (r : ℕ) (e : Event) (es : List Event) → OverrunsLater r es → OverrunsLater r (e ∷ es)
skip_event r e es (before, c, more, after, rest, same, v) =
    (e ∷ before, c, more, after, rest, ap (◌∷◌ e) same, v)

watch-Overruns :
    (o : Option ℕ) (events : List Event) (r : ℕ)
    → watch o events ≡ some (window_closed r)
    → OverrunsSince o r events ⊎ OverrunsLater r events
unfolding watch
watch-Overruns o [] r h = absurd (ground arith)
watch-Overruns o (stage_done x ∷ es) r h = absurd (ground arith)
watch-Overruns o (checked c ∷ es) r h = elim (Bool-cases c.decision.allowed) [
  | inl open_now ↦ elim (watch-Overruns none es r (ground arith)) [
    | inl never ↦ absurd never
    | inr later ↦ inr (skip_event r (checked c) es later)
  ]
  | inr shut ↦ elim (Bool-cases (grace_over (since_or o c.at) c)) [
    | inl over ↦ begin_here o r c [] es es (refl, (shut, tt), over, ground arith)
    | inr within ↦ elim (watch-Overruns (some (since_or o c.at)) es r (ground arith)) [
      | inl (d, more, rest, (same, all_shut, over, wait)) ↦
          begin_here o r c (d ∷ more) es rest
            (ap (◌∷◌ (checked c)) same, (shut, all_shut), over, wait)
      | inr later ↦ inr (skip_event r (checked c) es later)
    ]
  ]
]

await_stage-finished :
    (events : List Event) (r : ℕ) → await_stage events ≡ some (window_closed r) → ⊥
unfolding await_stage
await_stage-finished [] r h = cc
await_stage-finished (stage_done x ∷ es) r h = ground arith
await_stage-finished (checked c ∷ es) r h = await_stage-finished es r h

-- A stage is abandoned only if its kind waits for the schedule, and only after checks in an unbroken
-- run, all of which found processing denied, the last of them at least the grace period after the
-- first. The job is then put off by the wait that belongs to the last verdict.
pub run_stage_within_window-Overruns :
    (kind : JobKind) (events : List Event) (r : ℕ)
    → run_stage_within_window kind events ≡ some (window_closed r)
    → (bypasses_schedule kind ≡ false) × OverrunsLater r events
unfolding run_stage_within_window
run_stage_within_window-Overruns kind events r h = elim (Bool-cases (bypasses_schedule kind)) [
  | inl live ↦ absurd (await_stage-finished events r (rw live at h))
  | inr gated ↦ elim (watch-Overruns none events r (rw gated at h)) [
    | inl never ↦ absurd never
    | inr later ↦ (gated, later)
  ]
]

-- While processing is never denied, the stage runs to its own end: what it returns first is the
-- outcome, however many checks come before.
pub run_stage_within_window-finished :
    (kind : JobKind) (cs : List Check) (r : StageResult) (rest : List Event)
    → All (λ c. c.decision.allowed ≡ true) cs
    → run_stage_within_window kind (map checked cs ++ stage_done r ∷ rest) ≡ some (finished r)
unfolding run_stage_within_window watch await_stage
run_stage_within_window-finished kind [] r rest a = ground arith
run_stage_within_window-finished kind (c ∷ cs) r rest a =
    ground (arith, run_stage_within_window-finished kind cs r rest a.1)
