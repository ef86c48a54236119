-- ===== src/Schedule/Stable.antt =====
-- How long a verdict of the schedule stands.
use scribe_local.Common.{
  ℕ, ◌+◌, ◌-◌, ◌*◌, ◌/◌, ◌≤◌, ◌<◌, ◌≡◌, subst, List, [], ◌∷◌, All, All-map, All-Any, true, false,
  Bool-cases, Option, none, some, Option-cases, inl, inr, ◌⊎◌, arith, ltb, lt→ltb, find, find-some,
}
use scribe_local.Schedule.Policy.{
  Calendar, ProcessingSchedule, ScheduleOverride, Window, day_ns, second_ns, contains,
  merged_windows, decide_windows, decide_schedule, decide_under, decide,
}
use scribe_local.Schedule.Merge.{Covers, IsSorted}
use scribe_local.Schedule.Windows.{IsOpen, HasEdges}
use scribe_local.Schedule.Verdict.{
  decide_schedule-IsOpen, merged_windows-IsOpen, IsOpen-merged_windows, merged_windows-IsSorted,
  merged_windows-Opens, find-none-Covers, find-some-Covers, Any-Covers,
}

IsSorted-All : (lo : ℕ) (ws : List Window) → IsSorted lo ws → All (λ v. lo ≤ v.opens) ws
IsSorted-All lo [] s = tt
IsSorted-All lo (w ∷ ws) s =
    (s.0, All-map _ _ ws (λ v l. omega arith) (IsSorted-All w.opens ws s.1))

-- In order of opening, what opens before the first window that opens after `t` opens by `t`.
first_after :
    (t lo : ℕ) (ws : List Window) (w : Window)
    → IsSorted lo ws
    → find (λ v. ltb t v.opens) ws ≡ some w
    → All (λ v. (v.opens ≤ t) ⊎ (w.opens ≤ v.opens)) ws
first_after t lo [] w s e = tt
first_after t lo (v ∷ ws) w s e = elim (Bool-cases (ltb t v.opens)) [
  | inl after ↦
      let same : v ≡ w = ground arith in
      subst (λ x. All (λ v. (v.opens ≤ t) ⊎ (x.opens ≤ v.opens)) (v ∷ ws)) same
        (inr (omega arith), All-map _ _ ws (λ x l. inr l) (IsSorted-All v.opens ws s.1))
  | inr before ↦ (inl (ground arith), first_after t v.opens ws w s.1 (ground arith))
]

covered_before :
    (t u : ℕ) (w : Window) (ws : List Window)
    → All (λ v. (v.opens ≤ t) ⊎ (w.opens ≤ v.opens)) ws
    → t ≤ u
    → u < w.opens
    → Covers ws u
    → Covers ws t
covered_before t u w [] a l h c = absurd c
covered_before t u w (v ∷ ws) (inl o, a) l h (inl c) = inl (omega arith)
covered_before t u w (v ∷ ws) (inr o, a) l h (inl c) = absurd (omega arith)
covered_before t u w (v ∷ ws) a l h (inr c) = inr (covered_before t u w ws a.1 l h c)

-- The three answers of `decide_windows`.
data Answer (ws : List Window) (t : ℕ) : Type 0 where
  inside :
      (w : Window)
      → find (contains t) ws ≡ some w
      → (decide_windows ws t).allowed ≡ true
      → (decide_windows ws t).next_change_secs ≡ some ((w.closes - t) / second_ns)
      → Answer ws t
  never :
      find (contains t) ws ≡ none
      → find (λ v. ltb t v.opens) ws ≡ none
      → (decide_windows ws t).allowed ≡ false
      → (decide_windows ws t).next_change_secs ≡ none
      → Answer ws t
  later :
      (w : Window)
      → find (contains t) ws ≡ none
      → find (λ v. ltb t v.opens) ws ≡ some w
      → (decide_windows ws t).allowed ≡ false
      → (decide_windows ws t).next_change_secs ≡ some ((w.opens - t) / second_ns)
      → Answer ws t

decide_windows-cases : (ws : List Window) (t : ℕ) → Answer ws t
unfolding decide_windows
decide_windows-cases ws t = elim (Option-cases (find (contains t) ws)) [
  | inr (w, e) ↦ inside w e (rw (e, decide_windows)) (rw (e, decide_windows))
  | inl e ↦ elim (Option-cases (find (λ v. ltb t v.opens) ws)) [
    | inl f ↦ never e f (rw (e, decide_windows)) (ground arith)
    | inr (w, f) ↦ later w e f (rw (e, decide_windows)) (ground arith)
  ]
]

some_inj : (o : Option ℕ) (a b : ℕ) → o ≡ some a → o ≡ some b → a ≡ b
some_inj o a b h k = ground arith

none-some : (o : Option ℕ) (a : ℕ) → o ≡ none → o ≡ some a → ⊥
none-some o a h k = cc

module _ (s : ProcessingSchedule) (cal : Calendar) (on : s.enabled ≡ true) (h : HasEdges s) where
  denied_until :
      (t u : ℕ) (w : Window)
      → find (contains t) (merged_windows s cal (t / day_ns)) ≡ none
      → find (λ v. ltb t v.opens) (merged_windows s cal (t / day_ns)) ≡ some w
      → t ≤ u
      → u < w.opens
      → ¬ IsOpen s cal u
  denied_until t u w e f l lt o =
      let ws = merged_windows s cal (t / day_ns) in
      let near =
        All-Any (λ v. v.opens ≤ (t / day_ns + 8) * day_ns) w ws
          (merged_windows-Opens s cal on h (t / day_ns)) (find-some _ ws w f).1 in
      let after = first_after t 0 ws w (merged_windows-IsSorted s cal on h (t / day_ns)) f in
      find-none-Covers t ws e (
        covered_before t u w ws after l lt
          (IsOpen-merged_windows s cal (t / day_ns) u h (omega arith) (omega (arith, near)) o))

  IsOpen-until :
      (t u : ℕ) (w : Window)
      → find (contains t) (merged_windows s cal (t / day_ns)) ≡ some w
      → t ≤ u
      → u < w.closes
      → IsOpen s cal u
  IsOpen-until t u w e l lt =
      let found = find-some-Covers t (merged_windows s cal (t / day_ns)) w e in
      merged_windows-IsOpen s cal (t / day_ns) u h
        (Any-Covers u w (merged_windows s cal (t / day_ns)) found.1 (omega (arith, found.0)))

  stays_allowed : (u : ℕ) → IsOpen s cal u → (decide_schedule s cal u).allowed ≡ true
  stays_allowed u o = (decide_schedule-IsOpen s cal on h u).1 o

  stays_denied : (u : ℕ) → ¬ IsOpen s cal u → (decide_schedule s cal u).allowed ≡ false
  stays_denied u n = elim (Bool-cases (decide_schedule s cal u).allowed) [
    | inl a ↦ absurd (n ((decide_schedule-IsOpen s cal on h u).0 a))
    | inr d ↦ d
  ]

  decide_schedule_on :
      (t : ℕ) → decide_schedule s cal t ≡ decide_windows (merged_windows s cal (t / day_ns)) t
  unfolding decide_schedule
  decide_schedule_on t = rw on

  windows_stable :
      (t u n : ℕ)
      → (decide_windows (merged_windows s cal (t / day_ns)) t).next_change_secs ≡ some n
      → t ≤ u
      → u < t + n * second_ns
      → (decide_schedule s cal u).allowed
        ≡ (decide_windows (merged_windows s cal (t / day_ns)) t).allowed
  windows_stable t u n e l lt = elim (decide_windows-cases (merged_windows s cal (t / day_ns)) t) [
    | inside w f a c ↦
        let d : (w.closes - t) / second_ns ≡ n = some_inj _ _ _ c e in
        rw a (stays_allowed u (IsOpen-until t u w f l (omega (arith, d, lt))))
    | never f g a c ↦ absurd (none-some _ _ c e)
    | later w f g a c ↦
        let d : (w.opens - t) / second_ns ≡ n = some_inj _ _ _ c e in
        rw a (stays_denied u (denied_until t u w f g l (omega (arith, d, lt))))
  ]

  -- With the schedule switched on, the verdict at `t` still stands at every later instant before
  -- the announced number of seconds has passed.
  pub decide_schedule_stable :
      (t u n : ℕ)
      → (decide_schedule s cal t).next_change_secs ≡ some n
      → t ≤ u
      → u < t + n * second_ns
      → (decide_schedule s cal u).allowed ≡ (decide_schedule s cal t).allowed
  decide_schedule_stable t u n e l lt =
      rw (decide_schedule_on t) (windows_stable t u n (rw (decide_schedule_on t) at e) l lt)

schedule_stable :
    (s : ProcessingSchedule) (cal : Calendar) (t u n : ℕ)
    → HasEdges s
    → (decide_schedule s cal t).next_change_secs ≡ some n
    → t ≤ u
    → u < t + n * second_ns
    → (decide_schedule s cal u).allowed ≡ (decide_schedule s cal t).allowed
schedule_stable s cal t u n h e l lt = elim (Bool-cases s.enabled) [
  | inl on ↦ decide_schedule_stable s cal on h t u n e l lt
  | inr off ↦
      absurd (
        none-some (decide_schedule s cal t).next_change_secs n (unfold decide_schedule in rw off) e)
]

decide_under_stable :
    (o : Option ScheduleOverride) (s : ProcessingSchedule) (cal : Calendar)
    (local utc elapsed n : ℕ)
    → HasEdges s
    → (decide_under o s cal local utc).next_change_secs ≡ some n
    → elapsed < n * second_ns
    → (decide_under o s cal (local + elapsed) (utc + elapsed)).allowed
      ≡ (decide_under o s cal local utc).allowed
unfolding decide_under
decide_under_stable none s cal local utc elapsed n h e lt =
    schedule_stable s cal local (local + elapsed) n h e (omega arith) (omega arith)
decide_under_stable (some o) s cal local utc elapsed n h e lt =
    elim (Bool-cases (ltb utc o.until)) [
      | inl live ↦
          let d : (o.until - utc) / second_ns ≡ n = some_inj _ _ _ (rw live) e in
          rw (live, lt→ltb (utc + elapsed) o.until (omega (arith, d, lt)))
      | inr lapsed ↦
          let still : ltb (utc + elapsed) o.until ≡ false = ground arith in
          rw (lapsed, still)
            (schedule_stable s cal local (local + elapsed) n h (rw lapsed at e) (omega arith)
              (omega arith))
    ]

-- A verdict stands until its announced change: for any schedule whose edges are within the day, if
-- `decide` announces a change in `n` seconds, then at every instant less than `n` seconds later, on
-- both clocks, it allows processing exactly if it allowed it before.
pub decide_stable :
    (s : ProcessingSchedule) (cal : Calendar) (local utc elapsed n : ℕ)
    → HasEdges s
    → (decide s cal local utc).next_change_secs ≡ some n
    → elapsed < n * second_ns
    → (decide s cal (local + elapsed) (utc + elapsed)).allowed ≡ (decide s cal local utc).allowed
unfolding decide
decide_stable s cal local utc elapsed n h e lt =
    decide_under_stable s.active_override s cal local utc elapsed n h e lt
