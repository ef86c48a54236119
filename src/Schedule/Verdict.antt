-- ===== src/Schedule/Verdict.antt =====
-- The merged windows and the verdict that `decide` takes from them.
use scribe_local.Common.{
  ℕ, ◌+◌, ◌-◌, ◌*◌, ◌/◌, ◌≤◌, ◌≡◌, refl, sym, subst, List, [], ◌∷◌, Any, true, none, some,
  Option-cases, inl, inr, arith, ◌↔◌, find, find-some,
}
use scribe_local.Schedule.Policy.{
  Calendar, ProcessingSchedule, Window, day_ns, contains, merged_windows, raw_windows, sort_windows,
  merge_windows, decide_windows, decide_schedule,
}
use scribe_local.Schedule.Merge.{
  Contains, Covers, IsSorted, Opens, Covers-merge_windows, merge_windows-IsApart,
  Opens-merge_windows,
}
use scribe_local.Schedule.Windows.{
  IsOpenOn, IsOpen, HasEdges, IsOpenOn-IsOpen, raw_windows-Covers, Covers-raw_windows,
  raw_windows-Opens,
}

-- From an anchor day the merged windows cover exactly the instants of the days from one before it
-- to seven after it at which a window is open.
pub Covers-merged_windows :
    (s : ProcessingSchedule) (cal : Calendar) (anchor t : ℕ)
    → HasEdges s
    → Covers (merged_windows s cal anchor) t
      ↔ ((day : ℕ) × (anchor ≤ day + 1) × (day ≤ anchor + 7) × IsOpenOn s cal day t)
unfolding merged_windows
Covers-merged_windows s cal anchor t h = (into, back)
  where
    into :
        Covers (merge_windows (sort_windows (raw_windows s cal anchor 0 9))) t
        → (day : ℕ) × (anchor ≤ day + 1) × (day ≤ anchor + 7) × IsOpenOn s cal day t
    into c =
        let (day, lo, hi, o) =
          raw_windows-Covers s cal anchor 0 9 t ((Covers-merge_windows t _).0 c) in
        (day, omega arith, omega arith, o)

    back :
        (day : ℕ) × (anchor ≤ day + 1) × (day ≤ anchor + 7) × IsOpenOn s cal day t
        → Covers (merge_windows (sort_windows (raw_windows s cal anchor 0 9))) t
    back (day, lo, hi, o) =
        (Covers-merge_windows t _).1
          (Covers-raw_windows s cal anchor 0 9 day t (omega arith) (omega arith) o)

contains-Contains : (t : ℕ) (w : Window) → (contains t w ≡ true) ↔ Contains t w
contains-Contains t w = ground arith

pub find-none-Covers : (t : ℕ) (ws : List Window) → find (contains t) ws ≡ none → ¬ Covers ws t
find-none-Covers t (w ∷ ws) e (inl c) = ground (arith, (contains-Contains t w).1 c)
find-none-Covers t (w ∷ ws) e (inr c) = find-none-Covers t ws (ground arith) c
find-none-Covers t [] e c = absurd c

pub Any-Covers :
    (t : ℕ) (w : Window) (ws : List Window) → Any (λ v. v ≡ w) ws → Contains t w → Covers ws t
Any-Covers t w [] m c = absurd m
Any-Covers t w (v ∷ ws) (inl e) c = inl (subst (Contains t) (sym e) c)
Any-Covers t w (v ∷ ws) (inr m) c = inr (Any-Covers t w ws m c)

pub find-some-Covers :
    (t : ℕ) (ws : List Window) (w : Window)
    → find (contains t) ws ≡ some w
    → Contains t w × Any (λ v. v ≡ w) ws
find-some-Covers t ws w e =
    let found = find-some (contains t) ws w e in ((contains-Contains t w).0 found.0, found.1)

decide_windows-allowed :
    (ws : List Window) (t : ℕ) → ((decide_windows ws t).allowed ≡ true) ↔ Covers ws t
unfolding decide_windows
decide_windows-allowed ws t = elim (Option-cases (find (contains t) ws)) [
  | inl e ↦ rw (e, decide_windows) ((λ h. cc), λ c. absurd (find-none-Covers t ws e c))
  | inr (w, e) ↦
      let found = find-some-Covers t ws w e in
      rw (e, decide_windows) ((λ _. Any-Covers t w ws found.1 found.0), λ _. refl)
]

pub merged_windows-IsOpen :
    (s : ProcessingSchedule) (cal : Calendar) (anchor t : ℕ)
    → HasEdges s
    → Covers (merged_windows s cal anchor) t
    → IsOpen s cal t
merged_windows-IsOpen s cal anchor t h c =
    let (day, _, _, o) = (Covers-merged_windows s cal anchor t h).0 c in
    IsOpenOn-IsOpen s cal day t h o

pub IsOpen-merged_windows :
    (s : ProcessingSchedule) (cal : Calendar) (anchor t : ℕ)
    → HasEdges s
    → anchor ≤ t / day_ns
    → t / day_ns ≤ anchor + 7
    → IsOpen s cal t
    → Covers (merged_windows s cal anchor) t
IsOpen-merged_windows s cal anchor t h lo hi (inl o) =
    (Covers-merged_windows s cal anchor t h).1 (t / day_ns, omega arith, omega arith, o)
IsOpen-merged_windows s cal anchor t h lo hi (inr (p, o)) =
    (Covers-merged_windows s cal anchor t h).1 (t / day_ns - 1, omega arith, omega arith, o)

module _ (s : ProcessingSchedule) (cal : Calendar) (on : s.enabled ≡ true) (h : HasEdges s) where
  -- With the schedule switched on, processing is allowed exactly while the window of today, or the
  -- one of yesterday that runs past midnight, is open.
  pub decide_schedule-IsOpen : (t : ℕ) → ((decide_schedule s cal t).allowed ≡ true) ↔ IsOpen s cal t
  unfolding decide_schedule
  decide_schedule-IsOpen t =
      let anchor = t / day_ns in
      let allowed = decide_windows-allowed (merged_windows s cal anchor) t in
      rw on (
        (λ a. merged_windows-IsOpen s cal anchor t h (allowed.0 a)),
        λ o. allowed.1 (IsOpen-merged_windows s cal anchor t h (omega arith) (omega arith) o),
      )

  pub merged_windows-IsSorted : (anchor : ℕ) → IsSorted 0 (merged_windows s cal anchor)
  unfolding merged_windows
  merged_windows-IsSorted anchor = (merge_windows-IsApart (raw_windows s cal anchor 0 9)).0

  pub merged_windows-Opens :
      (anchor : ℕ) → Opens (λ o. o ≤ (anchor + 8) * day_ns) (merged_windows s cal anchor)
  unfolding merged_windows
  merged_windows-Opens anchor =
      Opens-merge_windows _ (raw_windows s cal anchor 0 9)
        (raw_windows-Opens s cal anchor 0 9 (anchor + 8) h (omega arith))
