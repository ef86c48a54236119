-- ===== src/Schedule/Windows.antt =====
-- The concrete windows around a day, and which instants they cover.
use scribe_local.Common.{
  ℕ, zero, suc, ◌+◌, ◌-◌, ◌*◌, ◌/◌, ◌≤◌, ◌<◌, ◌≡◌, refl, List, [], ◌∷◌, All, subst, Option, none,
  some, Option-cases, inl, inr, ◌⊎◌, arith, get_elem?,
}
use native.Mathlib.Decide.{dec_lt, ℕ_discrete}
use scribe_local.Schedule.Policy.{
  Calendar, DayWindow, ProcessingSchedule, Window, minutes_per_day, day_ns, day_at, day_window,
  weekday, window_of, push_window, push_day, raw_windows,
}
use scribe_local.Schedule.Normalize.{length_minutes_range}
use scribe_local.Schedule.Merge.{Contains, Covers, Opens}

-- The window of day `day` exists, is switched on, and contains `t`.
abbrev pub IsOpenOn : ProcessingSchedule → Calendar → ℕ → ℕ → Type 0
IsOpenOn s cal day t =
    (w : DayWindow) × (day_window s cal day ≡ some w)
    × (day < cal.days_end)
    × Contains t (window_of w day)

-- At `t` the window of that day or of the day before is open.
abbrev pub IsOpen : ProcessingSchedule → Calendar → ℕ → Type 0
IsOpen s cal t =
    IsOpenOn s cal (t / day_ns) t ⊎ ((0 < t / day_ns) × IsOpenOn s cal (t / day_ns - 1) t)

abbrev pub HasEdges : ProcessingSchedule → Type 0
HasEdges s = All (λ d. (d.start ≤ minutes_per_day) × (d.end ≤ minutes_per_day)) s.days

get_elem?-All {κ} :
    {A : Type 0} (P : A → Type κ) (xs : List A) (i : ℕ) (a : A)
    → All P xs
    → get_elem? xs i ≡ some a
    → P a
get_elem?-All P [] i a h e = absurd (ground arith)
get_elem?-All P (x ∷ xs) zero a h e = subst P (ground arith) h.0
get_elem?-All P (x ∷ xs) (suc i) a h e = get_elem?-All P xs i a h.1 e

day_window-edges :
    (s : ProcessingSchedule) (cal : Calendar) (day : ℕ) (w : DayWindow)
    → HasEdges s
    → day_window s cal day ≡ some w
    → (w.start ≤ minutes_per_day) × (w.end ≤ minutes_per_day)
day_window-edges s cal day w h e = elim (Option-cases (get_elem? s.days (weekday cal day))) [
  | inl missing ↦ absurd (ground arith)
  | inr (v, found) ↦ let edges = get_elem?-All _ s.days (weekday cal day) v h found in ground arith
]

-- A window of a day closes before the day after next.
IsOpenOn-day :
    (s : ProcessingSchedule) (cal : Calendar) (day t : ℕ)
    → HasEdges s
    → IsOpenOn s cal day t
    → (day ≤ t / day_ns) × (t / day_ns ≤ day + 1)
unfolding window_of
IsOpenOn-day s cal day t h (w, e, d, c) =
    let edges = day_window-edges s cal day w h e in
    omega (arith, length_minutes_range w edges.0 edges.1)

pub IsOpenOn-IsOpen :
    (s : ProcessingSchedule) (cal : Calendar) (day t : ℕ)
    → HasEdges s
    → IsOpenOn s cal day t
    → IsOpen s cal t
IsOpenOn-IsOpen s cal day t h o =
    let near = IsOpenOn-day s cal day t h o in
    elim (dec_lt day (t / day_ns)) [
      | yes before ↦
          inr (omega arith, subst (λ d. IsOpenOn s cal d t) (omega (arith, near, before)) o)
      | no today ↦ inl (subst (λ d. IsOpenOn s cal d t) (omega (arith, near, today)) o)
    ]

Covers-push_window :
    (day t : ℕ) (o : Option DayWindow) (rest : List Window)
    → Covers (push_window day o rest) t
    → Covers rest t ⊎ ((w : DayWindow) × (o ≡ some w) × Contains t (window_of w day))
Covers-push_window day t none rest c = inl c
Covers-push_window day t (some w) rest (inl c) = inr (w, refl, c)
Covers-push_window day t (some w) rest (inr c) = inl c

day_at-some :
    (cal : Calendar) (anchor k day : ℕ)
    → day_at cal anchor k ≡ some day
    → (day + 1 ≡ anchor + k) × (day < cal.days_end)
day_at-some cal anchor k day e = ground arith

Covers-push_day :
    (s : ProcessingSchedule) (cal : Calendar) (anchor k t : ℕ) (o : Option ℕ) (rest : List Window)
    → day_at cal anchor k ≡ o
    → Covers (push_day s cal o rest) t
    → Covers rest t ⊎ ((day : ℕ) × (day + 1 ≡ anchor + k) × IsOpenOn s cal day t)
Covers-push_day s cal anchor k t none rest e c = inl c
Covers-push_day s cal anchor k t (some day) rest e c =
    let (at, exists) = day_at-some cal anchor k day e in
    elim (Covers-push_window day t (day_window s cal day) rest c) [
      | inl later ↦ inl later
      | inr (w, d, now) ↦ inr (day, at, (w, d, exists, now))
    ]

-- Every instant that the raw windows cover is in the window of a day of the lookahead.
pub raw_windows-Covers :
    (s : ProcessingSchedule) (cal : Calendar) (anchor k left t : ℕ)
    → Covers (raw_windows s cal anchor k left) t
    → (day : ℕ) × (anchor + k ≤ day + 1) × (day + 1 < anchor + k + left) × IsOpenOn s cal day t
unfolding raw_windows
raw_windows-Covers s cal anchor k zero t c = absurd c
raw_windows-Covers s cal anchor k (suc left) t c =
    elim (Covers-push_day s cal anchor k t (day_at cal anchor k) _ refl c) [
      | inl later ↦
          let (day, lo, hi, o) = raw_windows-Covers s cal anchor (suc k) left t later in
          (day, omega arith, omega arith, o)
      | inr (day, e, o) ↦ (day, omega arith, omega arith, o)
    ]

Covers-push_rest :
    (s : ProcessingSchedule) (cal : Calendar) (t : ℕ) (o : Option ℕ) (rest : List Window)
    → Covers rest t
    → Covers (push_day s cal o rest) t
Covers-push_rest s cal t none rest c = c
Covers-push_rest s cal t (some day) rest c = go (day_window s cal day)
  where
    go : (w : Option DayWindow) → Covers (push_window day w rest) t
    go none = c
    go (some w) = inr c

day_at-exists :
    (cal : Calendar) (anchor k day : ℕ)
    → day + 1 ≡ anchor + k
    → day < cal.days_end
    → day_at cal anchor k ≡ some day
day_at-exists cal anchor k day e h = ground arith

-- And the window of every day of the lookahead is among them.
pub Covers-raw_windows :
    (s : ProcessingSchedule) (cal : Calendar) (anchor k left day t : ℕ)
    → anchor + k ≤ day + 1
    → day + 1 < anchor + k + left
    → IsOpenOn s cal day t
    → Covers (raw_windows s cal anchor k left) t
unfolding raw_windows
Covers-raw_windows s cal anchor k zero day t lo hi o = absurd (omega arith)
Covers-raw_windows s cal anchor k (suc left) day t lo hi o =
    elim (ℕ_discrete (day + 1) (anchor + k)) [
      | yes here ↦ rw (day_at-exists cal anchor k day here o.2) (rw (o.1) (inl o.3))
      | no later ↦ Covers-push_rest s cal t (day_at cal anchor k) _ (
          Covers-raw_windows s cal anchor (suc k) left day t (omega (arith, later)) (omega arith) o)
    ]

opens_by_midnight :
    (s : ProcessingSchedule) (cal : Calendar) (day hi : ℕ) (w : DayWindow)
    → HasEdges s
    → day_window s cal day ≡ some w
    → day + 1 ≤ hi
    → (window_of w day).opens ≤ hi * day_ns
unfolding window_of
opens_by_midnight s cal day hi w h e l = omega (arith, day_window-edges s cal day w h e)

Opens-push_day :
    (s : ProcessingSchedule) (cal : Calendar) (anchor k hi : ℕ) (o : Option ℕ) (rest : List Window)
    → HasEdges s
    → day_at cal anchor k ≡ o
    → anchor + k ≤ hi
    → Opens (λ x. x ≤ hi * day_ns) rest
    → Opens (λ x. x ≤ hi * day_ns) (push_day s cal o rest)
Opens-push_day s cal anchor k hi none rest h e l r = r
Opens-push_day s cal anchor k hi (some day) rest h e l r = go (day_window s cal day) refl
  where
    go :
        (w : Option DayWindow)
        → day_window s cal day ≡ w
        → Opens (λ x. x ≤ hi * day_ns) (push_window day w rest)
    go none d = r
    go (some w) d =
        (opens_by_midnight s cal day hi w h d (omega (arith, day_at-some cal anchor k day e)), r)

-- Every window of the lookahead opens by the end of its last day.
pub raw_windows-Opens :
    (s : ProcessingSchedule) (cal : Calendar) (anchor k left hi : ℕ)
    → HasEdges s
    → anchor + k + left ≤ hi + 1
    → Opens (λ o. o ≤ hi * day_ns) (raw_windows s cal anchor k left)
unfolding raw_windows
raw_windows-Opens s cal anchor k zero hi h l = tt
raw_windows-Opens s cal anchor k (suc left) hi h l =
    Opens-push_day s cal anchor k hi (day_at cal anchor k) _ h refl (omega arith)
      (raw_windows-Opens s cal anchor (suc k) left hi h (omega arith))
