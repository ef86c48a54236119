-- ===== src/Schedule/Decide.antt =====
-- When `decide` allows processing, and which kinds a worker may then claim.
use scribe_local.Common.{
  ℕ, ◌≤◌, ◌<◌, ◌≡◌, refl, List, [], ◌∷◌, Bool, true, false, ◌&&◌, Bool-cases, Option, none, some,
  inl, inr, ◌⊎◌, arith, ltb, ◌↔◌, any, filter,
}
use scribe_local.Types.Kind.{JobKind, transcribe_segment, same_kind, bypasses_schedule}
use scribe_local.Schedule.Policy.{
  Calendar, ProcessingSchedule, ScheduleOverride, ScheduleDecision, run_mode, mode_allows,
  OverrideMode, decide_schedule, decide_under, decide, claimable_kinds,
}
use scribe_local.Schedule.Windows.{IsOpen, HasEdges}
use scribe_local.Schedule.Verdict.{decide_schedule-IsOpen}

-- The windows allow it: the schedule is off, or a window is open.
abbrev pub WindowsAllow : ProcessingSchedule → Calendar → ℕ → Type 0
WindowsAllow s cal local = (s.enabled ≡ false) ⊎ IsOpen s cal local

-- An override that has not lapsed decides alone; after that the windows do.
abbrev pub Allows : Option ScheduleOverride → ProcessingSchedule → Calendar → ℕ → ℕ → Type 0
Allows none s cal local utc = WindowsAllow s cal local
Allows (some o) s cal local utc =
    ((utc < o.until) × (o.mode ≡ run_mode)) ⊎ ((o.until ≤ utc) × WindowsAllow s cal local)

decide_schedule-WindowsAllow :
    (s : ProcessingSchedule) (cal : Calendar) (local : ℕ)
    → HasEdges s
    → ((decide_schedule s cal local).allowed ≡ true) ↔ WindowsAllow s cal local
decide_schedule-WindowsAllow s cal local h = elim (Bool-cases s.enabled) [
  | inl on ↦
      let open_iff = decide_schedule-IsOpen s cal on h local in
      ((λ a. inr (open_iff.0 a)), back on open_iff)
  | inr off ↦ ((λ _. inl off), λ _. unfold decide_schedule in rw off)
]
  where
    back :
        s.enabled ≡ true
        → ((decide_schedule s cal local).allowed ≡ true) ↔ IsOpen s cal local
        → WindowsAllow s cal local
        → (decide_schedule s cal local).allowed ≡ true
    back on e (inl off) = cc (on)
    back on e (inr o) = e.1 o

mode_allows-run : (m : OverrideMode) → (mode_allows m ≡ true) ↔ (m ≡ run_mode)
mode_allows-run m = ground arith

decide_under-Allows :
    (o : Option ScheduleOverride) (s : ProcessingSchedule) (cal : Calendar) (local utc : ℕ)
    → HasEdges s
    → ((decide_under o s cal local utc).allowed ≡ true) ↔ Allows o s cal local utc
unfolding decide_under
decide_under-Allows none s cal local utc h = decide_schedule-WindowsAllow s cal local h
decide_under-Allows (some o) s cal local utc h = elim (Bool-cases (ltb utc o.until)) [
  | inl live ↦
      let m = mode_allows-run o.mode in rw live ((λ a. inl (ground arith, m.0 a)), over m live)
  | inr lapsed ↦
      let w = decide_schedule-WindowsAllow s cal local h in
      rw lapsed ((λ a. inr (ground arith, w.0 a)), under w lapsed)
]
  where
    over :
        (mode_allows o.mode ≡ true) ↔ (o.mode ≡ run_mode)
        → ltb utc o.until ≡ true
        → Allows (some o) s cal local utc
        → mode_allows o.mode ≡ true
    over m live (inl p) = m.1 p.1
    over m live (inr p) = absurd (ground arith)

    under :
        ((decide_schedule s cal local).allowed ≡ true) ↔ WindowsAllow s cal local
        → ltb utc o.until ≡ false
        → Allows (some o) s cal local utc
        → (decide_schedule s cal local).allowed ≡ true
    under w lapsed (inl p) = absurd (ground arith)
    under w lapsed (inr p) = w.1 p.1

-- For any schedule whose edges are within the day, `decide` allows processing exactly if an
-- override that has not lapsed says run, or none is in force and the schedule is off, or the window
-- of today, or the one of yesterday that runs past midnight, is open.
pub decide-Allows :
    (s : ProcessingSchedule) (cal : Calendar) (local utc : ℕ)
    → HasEdges s
    → ((decide s cal local utc).allowed ≡ true) ↔ Allows s.active_override s cal local utc
unfolding decide
decide-Allows s cal local utc h = decide_under-Allows s.active_override s cal local utc h

same_kind-bypasses :
    (k x : JobKind) → same_kind k x ≡ true → bypasses_schedule x ≡ bypasses_schedule k
unfolding bypasses_schedule
same_kind-bypasses k x h = ground arith

any-filter-bypasses :
    (k : JobKind) (ks : List JobKind)
    → any (same_kind k) (filter bypasses_schedule ks)
      ≡ (any (same_kind k) ks && bypasses_schedule k)
any-filter-bypasses k [] = refl
any-filter-bypasses k (x ∷ ks) = ground (arith, same_kind-bypasses k x, any-filter-bypasses k ks)

bypasses_schedule_lem :
    (k : JobKind) → (bypasses_schedule k ≡ true) ↔ ((false ≡ true) ⊎ (k ≡ transcribe_segment))
unfolding bypasses_schedule
bypasses_schedule_lem k = ground arith

and_iff : (a b : Bool) → ((a && b) ≡ true) ↔ ((a ≡ true) × (b ≡ true))
and_iff a b = ground arith

-- A worker may claim a kind exactly if it is configured to, and processing is allowed or the kind
-- is live transcription.
pub claimable_kinds_lem :
    (configured : List JobKind) (d : ScheduleDecision) (k : JobKind)
    → (any (same_kind k) (claimable_kinds configured d) ≡ true)
      ↔ ((any (same_kind k) configured ≡ true) × ((d.allowed ≡ true) ⊎ (k ≡ transcribe_segment)))
unfolding claimable_kinds
claimable_kinds_lem configured d k = elim (Bool-cases d.allowed) [
  | inl a ↦ rw a ((λ c. (c, inl refl)), λ c. c.0)
  | inr n ↦
      let both = and_iff (any (same_kind k) configured) (bypasses_schedule k) in
      let live = bypasses_schedule_lem k in
      rw (n, any-filter-bypasses k configured)
        ((λ c. ((both.0 c).0, live.0 (both.0 c).1)), λ c. both.1 (c.0, live.1 c.1))
]
