-- ===== src/Schedule/Normalize.antt =====
-- `normalize` and `length_minutes`.
use scribe_local.Common.{
  ℕ, zero, suc, ◌*◌, ◌-◌, ◌≤◌, ◌<◌, ◌≡◌, refl, ◌∙◌, min, List, [], ◌∷◌, Option, none, some, map,
  length, take, replicate, All, length-append, length-take, arith, ◌↔◌, ap,
}
use mathlib.Core.Path.{ap₂}
use mathlib.Core.List.{append-nil}
use scribe_local.Schedule.Policy.{
  DayWindow, off, length_minutes, minutes_per_day, ScheduleOverride, ProcessingSchedule,
  clamp_window, pad_days, live_override, normalize,
}

-- For edges within the day the length is at most 1440 minutes, and it is 0 exactly if the window
-- starts at 1440 and ends at 0.
pub length_minutes_range :
    (w : DayWindow)
    → w.start ≤ minutes_per_day
    → w.end ≤ minutes_per_day
    → (length_minutes w ≤ minutes_per_day)
      × ((length_minutes w ≡ 0) ↔ ((w.start ≡ minutes_per_day) × (w.end ≡ 0)))
unfolding length_minutes
length_minutes_range w hs he = ground arith

-- The override is absent or still to run.
abbrev pub IsUnexpired : ℕ → Option ScheduleOverride → Type 0
IsUnexpired now none = Unit
IsUnexpired now (some o) = now < o.until

pub record IsNormal (now : ℕ) (s : ProcessingSchedule) : Type 0 where
  pub seven : length s.days ≡ 7
  pub edges : All (λ d. (d.start ≤ minutes_per_day) × (d.end ≤ minutes_per_day)) s.days
  pub grace : s.grace_minutes ≤ 1440
  pub fresh : IsUnexpired now s.active_override

length-replicate {ℓ} : {A : Type ℓ} (n : ℕ) (a : A) → length (replicate n a) ≡ n
length-replicate zero a = refl
length-replicate (suc n) a = ap suc (length-replicate n a)

length-map {ℓ κ} :
    {A : Type ℓ} {B : Type κ} (f : A → B) (xs : List A) → length (map f xs) ≡ length xs
length-map f [] = refl
length-map f (x ∷ xs) = ap suc (length-map f xs)

length-pad_days : (days : List DayWindow) → length (pad_days days) ≡ 7
unfolding pad_days
length-pad_days days = omega (
  arith,
  length-append {0} (take 7 days) (replicate (7 - length (take 7 days)) off),
  length-replicate {0} (7 - length (take 7 days)) off,
  length-take {0} 7 days,
)

clamp_window-edges :
    (ds : List DayWindow)
    → All (λ d. (d.start ≤ minutes_per_day) × (d.end ≤ minutes_per_day)) (map clamp_window ds)
clamp_window-edges [] = tt
clamp_window-edges (d ∷ ds) = (omega arith, clamp_window-edges ds)

-- Whatever was stored, a normalized schedule has seven days with their edges within the day, a
-- grace of at most a day, and no override that has expired.
pub normalize-IsNormal : (now : ℕ) (s : ProcessingSchedule) → IsNormal now (normalize now s)
unfolding normalize
normalize-IsNormal now s = record {
  seven = length-map clamp_window (pad_days s.days) ∙ length-pad_days s.days;
  edges = clamp_window-edges (pad_days s.days);
  grace = omega arith;
  fresh = unexpired s.active_override;
}
  where
    unexpired : (o : Option ScheduleOverride) → IsUnexpired now (live_override now o)
    unexpired none = tt
    unexpired (some o) = ground arith

take_all {ℓ} : {A : Type ℓ} (n : ℕ) (xs : List A) → length xs ≡ n → take n xs ≡ xs
take_all zero [] h = refl
take_all zero (x ∷ xs) h = absurd (omega arith)
take_all (suc n) [] h = refl
take_all (suc n) (x ∷ xs) h = ap (◌∷◌ x) (take_all n xs (omega arith))

pad_days_seven : (days : List DayWindow) → length days ≡ 7 → pad_days days ≡ days
unfolding pad_days
pad_days_seven days h = rw (take_all 7 days h, h) (append-nil days)

clamp_window_within :
    (ds : List DayWindow)
    → All (λ d. (d.start ≤ minutes_per_day) × (d.end ≤ minutes_per_day)) ds
    → map clamp_window ds ≡ ds
clamp_window_within [] h = refl
clamp_window_within (d ∷ ds) h = ap₂ ◌∷◌ (ground arith) (clamp_window_within ds h.1)

live_override_unexpired :
    (now : ℕ) (o : Option ScheduleOverride) → IsUnexpired now o → live_override now o ≡ o
live_override_unexpired now none h = refl
live_override_unexpired now (some o) h = ground arith

-- A schedule that is normal at `now` is left as it is, so normalizing twice changes nothing more.
pub normalize_fixed : (now : ℕ) (s : ProcessingSchedule) → IsNormal now s → normalize now s ≡ s
unfolding normalize
normalize_fixed now s n =
    λ i. record s { days = days i; grace_minutes = grace i; active_override = over i }
  where
    days : map clamp_window (pad_days s.days) ≡ s.days
    days =
        ap (map clamp_window) (pad_days_seven s.days n.seven) ∙ clamp_window_within s.days n.edges

    grace : min s.grace_minutes (24 * 60) ≡ s.grace_minutes
    grace = omega (arith, n.grace)

    over : live_override now s.active_override ≡ s.active_override
    over = live_override_unexpired now s.active_override n.fresh
