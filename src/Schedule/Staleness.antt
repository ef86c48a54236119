-- ===== src/Schedule/Staleness.antt =====
-- How old a schedule that the gate answers can be.
use scribe_local.Common.{
  ℕ, ◌+◌, ◌≤◌, ◌<◌, ◌≡◌, refl, sym, subst, Bool, List, [], ◌∷◌, Option, none, some, ltb, Bool-cases,
  inl, inr, ◌⊎◌, ◌-◌, arith,
}
use scribe_local.Schedule.Policy.{Calendar, ProcessingSchedule, default_schedule, decide}
use scribe_local.Schedule.Gate.{
  cache_ttl, GateState, new_gate, invalidate, fresh, last_known, from_read, or_read, schedule, note,
  is_logged, decide_at, Event, asks, wakes, run,
}

-- What is cached was read, not after `now`.
abbrev WasRead : (ℕ → Option ProcessingSchedule) → ℕ → Option (ℕ × ProcessingSchedule) → Type 0
WasRead stored now none = Unit {0}
WasRead stored now (some (at, s)) = (at ≤ now) × (stored at ≡ some s)

-- The schedule was read less than the cache's time ago; or the store cannot be read, and it is the
-- default or was read before.
abbrev pub IsCurrent : (ℕ → Option ProcessingSchedule) → ℕ → ProcessingSchedule → Type 0
IsCurrent stored now s =
    ((at : ℕ) × (at ≤ now) × (now < at + cache_ttl) × (stored at ≡ some s))
    ⊎ ((stored now ≡ none)
        × ((s ≡ default_schedule) ⊎ ((at : ℕ) × (at ≤ now) × (stored at ≡ some s))))

module _ (stored : ℕ → Option ProcessingSchedule) where
  later :
      (now d : ℕ) (c : Option (ℕ × ProcessingSchedule))
      → WasRead stored now c
      → WasRead stored (now + d) c
  later now d none h = tt
  later now d (some (at, s)) (h, k) = (omega arith, k)

  note_cached : (b : Bool) (st : GateState) → (note b st).cached ≡ st.cached
  note_cached b st = elim (Bool-cases (is_logged st.last_logged_allowed b)) [
    | inl same ↦ rw same refl
    | inr other ↦ rw other refl
  ]

  from_read-IsCurrent :
      (now : ℕ) (st : GateState) (o : Option ProcessingSchedule)
      → stored now ≡ o
      → WasRead stored now st.cached
      → WasRead stored now (from_read now st o).0.cached
        × IsCurrent stored now (from_read now st o).1
  from_read-IsCurrent now st (some s) e h =
      ((omega arith, e), inl (now, omega arith, omega arith, e))
  from_read-IsCurrent now st none e h = (h, inr (e, known st.cached h))
    where
      known :
          (c : Option (ℕ × ProcessingSchedule))
          → WasRead stored now c
          → (last_known c ≡ default_schedule)
            ⊎ ((at : ℕ) × (at ≤ now) × (stored at ≡ some (last_known c)))
      known none k = inl refl
      known (some (at, s)) (k, r) = inr (at, k, r)

  schedule-IsCurrent :
      (now : ℕ) (st : GateState)
      → WasRead stored now st.cached
      → WasRead stored now (schedule now (stored now) st).0.cached
        × IsCurrent stored now (schedule now (stored now) st).1
  unfolding schedule
  schedule-IsCurrent now st h = go st.cached h
    where
      go :
          (c : Option (ℕ × ProcessingSchedule))
          → WasRead stored now c
          → WasRead stored now (or_read now (stored now) st (fresh now c)).0.cached
            × IsCurrent stored now (or_read now (stored now) st (fresh now c)).1
      go none k = from_read-IsCurrent now st (stored now) refl h
      go (some (at, s)) (k, r) = elim (Bool-cases (ltb (now - at) cache_ttl)) [
        | inl young ↦ rw young (h, inl (at, k, ground arith, r))
        | inr old ↦ rw old (from_read-IsCurrent now st (stored now) refl h)
      ]

  run-WasRead :
      (cal : Calendar) (local utc : ℕ → ℕ) (es : List Event) (now : ℕ) (st : GateState)
      → WasRead stored now st.cached
      → WasRead stored
          (run stored cal local utc es (now, st)).0
          (run stored cal local utc es (now, st)).1.cached
  unfolding run decide_at invalidate
  run-WasRead cal local utc [] now st h = h
  run-WasRead cal local utc (wakes ∷ es) now st h =
      run-WasRead cal local utc es now (invalidate st) tt
  run-WasRead cal local utc (asks d ∷ es) now st h = run-WasRead cal local utc es (now + d) _ (
      subst (WasRead stored (now + d))
        (sym (
          note_cached
            (decide (schedule (now + d) (stored (now + d)) st).1 cal (local (now + d))
              (utc (now + d))).allowed
            (schedule (now + d) (stored (now + d)) st).0))
        (schedule-IsCurrent (now + d) st (later now d st.cached h)).0)

  -- After any history of a gate, a schedule that it answers is one that was read less than five
  -- seconds ago. Only if the store cannot be read now can it be older, or the default.
  pub schedule-run :
      (cal : Calendar) (local utc : ℕ → ℕ) (es : List Event) (d : ℕ)
      → let w = run stored cal local utc es (0, new_gate) in
        IsCurrent stored (w.0 + d) (schedule (w.0 + d) (stored (w.0 + d)) w.1).1
  schedule-run cal local utc es d =
      let w = run stored cal local utc es (0, new_gate) in
      (schedule-IsCurrent (w.0 + d) w.1
        (later w.0 d w.1.cached (run-WasRead cal local utc es 0 new_gate tt))).1
