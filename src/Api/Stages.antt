-- ===== src/Api/Stages.antt =====
-- What the progress report says of the jobs.
use scribe_local.Common.{
  ◌≡◌, refl, sym, subst, ◌∙◌, ap, Bool, true, false, List, [], ◌∷◌, ◌++◌, Option, none, some, map,
  filter, find, length, All, Bool-cases, Option-cases, inl, inr, arith,
}
use scribe_local.Common.Text.{codes, text_eq}
use scribe_local.Types.Kind.{
  JobKind, JobState, queued, running, done, failed, same_kind, same_state, state_as_str,
}
use scribe_local.Queue.Table.{Job}
use scribe_local.Api.Progress.{
  pipeline_stages, StageProgress, stage_progress, last_job, has_state, kind_of, build_progress,
}

-- The last job of the kind, if there is one, is in the state.
abbrev pub is_now : JobState → Option Job → Bool
is_now s none = false
is_now s (some j) = same_state j.state s

has_state-stage_progress :
    (s : JobState) (k : JobKind) (o : Option Job)
    → has_state (state_as_str s) (stage_progress k o) ≡ is_now s o
unfolding stage_progress state_as_str
has_state-stage_progress s k none = named s
  where
    named : (s : JobState) → text_eq (codes "pending") (state_as_str s) ≡ false
    named queued = refl
    named _ = refl
has_state-stage_progress s k (some j) = named j.state s
  where
    named : (a b : JobState) → text_eq (state_as_str a) (state_as_str b) ≡ same_state a b
    named queued queued = refl
    named queued running = refl
    named queued done = refl
    named queued failed = refl
    named running queued = refl
    named running running = refl
    named running done = refl
    named running failed = refl
    named done queued = refl
    named done running = refl
    named done done = refl
    named done failed = refl
    named failed queued = refl
    named failed running = refl
    named failed done = refl
    named failed failed = refl

module _ (jobs : List Job) where
  abbrev row : JobKind → StageProgress
  row k = stage_progress k (last_job k jobs)

  count_rows :
      (s : JobState) (ks : List JobKind)
      → length (filter (has_state (state_as_str s)) (map row ks))
        ≡ length (filter (λ k. is_now s (last_job k jobs)) ks)
  count_rows s [] = refl
  count_rows s (k ∷ ks) =
      ground (arith, has_state-stage_progress s k (last_job k jobs), count_rows s ks)

  kind-row : (k : JobKind) (o : Option Job) → (stage_progress k o).kind ≡ k
  unfolding stage_progress
  kind-row k none = refl
  kind-row k (some j) = refl

  find-row :
      (s : JobState) (ks : List JobKind)
      → kind_of (find (has_state (state_as_str s)) (map row ks))
        ≡ find (λ k. is_now s (last_job k jobs)) ks
  find-row s [] = refl
  find-row s (k ∷ ks) = elim (Bool-cases (is_now s (last_job k jobs))) [
    | inl hit ↦
        rw (has_state-stage_progress s k (last_job k jobs), hit)
          (ap some (kind-row k (last_job k jobs)))
    | inr miss ↦ rw (has_state-stage_progress s k (last_job k jobs), miss) (find-row s ks)
  ]

  kinds_of_rows : (ks : List JobKind) → map (λ p. p.kind) (map row ks) ≡ ks
  kinds_of_rows [] = refl
  kinds_of_rows (k ∷ ks) = rw (kind-row k (last_job k jobs), kinds_of_rows ks) refl

  -- The report lists the six stages in order, counts those whose last job is done, and names as
  -- current the first whose last job is running.
  pub build_progress_lem :
      (map (λ p. p.kind) (build_progress jobs).stages ≡ pipeline_stages)
      × ((build_progress jobs).completed
          ≡ length (filter (λ k. is_now done (last_job k jobs)) pipeline_stages))
      × ((build_progress jobs).current
          ≡ find (λ k. is_now running (last_job k jobs)) pipeline_stages)
  unfolding build_progress state_as_str
  build_progress_lem = (
    kinds_of_rows pipeline_stages,
    count_rows done pipeline_stages,
    find-row running pipeline_stages,
  )

job_inj : (a b : Job) → some a ≡ some b → a ≡ b
job_inj a b h = ground arith

none_is : (a b : Job) → ◌≡◌ {A = Option Job} none (some b) → ⊥
none_is a b h = ground arith

last_job-none :
    (k : JobKind) (jobs : List Job)
    → last_job k jobs ≡ none
    → All (λ x. same_kind x.kind k ≡ false) jobs
unfolding last_job
last_job-none k [] h = tt
last_job-none k (x ∷ xs) h = elim (Option-cases (last_job k xs)) [
  | inr (y, e) ↦ absurd (none_is y y (sym (rw e at h)))
  | inl e ↦ elim (Bool-cases (same_kind x.kind k)) [
    | inl hit ↦ absurd (none_is x x (sym (rw (e, hit) at h)))
    | inr miss ↦ (miss, last_job-none k xs e)
  ]
]

-- The job of a stage's row is the last of its kind: no later job has the kind.
pub last_job-some :
    (k : JobKind) (jobs : List Job) (j : Job)
    → last_job k jobs ≡ some j
    → (earlier : List Job) × (later : List Job) × (jobs ≡ earlier ++ (j ∷ later))
      × (same_kind j.kind k ≡ true)
      × All (λ x. same_kind x.kind k ≡ false) later
unfolding last_job
last_job-some k [] j h = absurd (ground arith)
last_job-some k (x ∷ xs) j h = elim (Option-cases (last_job k xs)) [
  | inr (y, e) ↦
      let (earlier, later, split, kind, rest) = last_job-some k xs j (e ∙ rw e at h) in
      (x ∷ earlier, later, ap (λ zs. x ∷ zs) split, kind, rest)
  | inl e ↦ elim (Bool-cases (same_kind x.kind k)) [
    | inl hit ↦
        let same = job_inj x j (rw (e, hit) at h) in
        (
          [],
          xs,
          ap (λ y. y ∷ xs) same,
          subst (λ y. same_kind y.kind k ≡ true) same hit,
          last_job-none k xs e,
        )
    | inr miss ↦ absurd (none_is x j (rw (e, miss) at h))
  ]
]
