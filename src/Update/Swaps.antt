-- ===== src/Update/Swaps.antt =====
-- The steps of an update, at three different paths.
use scribe_local.Common.{
  ◌≡◌, refl, sym, ap, subst, ◌∙◌, Bool, true, false, none, some, ◌⊎◌, inl, inr, if◌then◌else◌,
  arith,
}
use scribe_local.Common.Text.{Text, text_eq}
use scribe_local.Update.Errors.{UpdateError, Result, ok, err, ◌>>◌}
use scribe_local.Update.Package.{Package}
use scribe_local.Update.Files.{
  FilePath, Files, exists, sibling, same_path, same_path_refl, same_path-sibling,
  same_path-siblings,
}
use scribe_local.Update.Apply.{
  ApplyOptions, UpdateOutcome, Grants, Commands, RollbackGrants, sanity, migrate_with, back_up,
  move_in, swap, check_and_swap, install, stage, clean_up, attempt, after_stage, swap_back,
}

-- The paths `a` of the binary, `s` of the staged file and `b` of the backup are different.
pub record AreApart (a s b : FilePath) : Type 0 where
  pub aa : same_path a a ≡ true
  pub ss : same_path s s ≡ true
  pub bb : same_path b b ≡ true
  pub as' : same_path a s ≡ false
  pub sa : same_path s a ≡ false
  pub ab : same_path a b ≡ false
  pub ba : same_path b a ≡ false
  pub sb : same_path s b ≡ false
  pub bs : same_path b s ≡ false

pub siblings-AreApart :
    (p : FilePath) (x y : Text)
    → text_eq x y ≡ false
    → text_eq y x ≡ false
    → AreApart p (sibling p x) (sibling p y)
siblings-AreApart p x y xy yx = record {
  aa = same_path_refl p;
  ss = same_path_refl (sibling p x);
  bb = same_path_refl (sibling p y);
  as' = (same_path-sibling p x).0;
  sa = (same_path-sibling p x).1;
  ab = (same_path-sibling p y).0;
  ba = (same_path-sibling p y).1;
  sb = same_path-siblings p x y ∙ xy;
  bs = same_path-siblings p y x ∙ yx;
}

module _ (a s b : FilePath) (apart : AreApart a s b) (g : Grants) (fs : Files) where
  swap-ok :
      (swap g a s b fs).1 ≡ ok tt
      → ((swap g a s b fs).0 a ≡ fs s)
        × ((swap g a s b fs).0 b ≡ (if exists a fs then fs a else fs b))
        × ((swap g a s b fs).0 s ≡ none)
  unfolding swap back_up move_in
  swap-ok h = ground arith

  swap-elsewhere :
      (q : FilePath)
      → same_path a q ≡ false
      → same_path s q ≡ false
      → same_path b q ≡ false
      → (swap g a s b fs).0 q ≡ fs q
  unfolding swap back_up move_in
  swap-elsewhere q aq sq bq = ground arith

  -- When the new binary cannot be moved in, the old one is put back.
  swap-err :
      {e : UpdateError}
      → g.restore ≡ true
      → (exists a fs ≡ true) ⊎ (exists b fs ≡ false)
      → (swap g a s b fs).1 ≡ err e
      → (swap g a s b fs).0 a ≡ fs a
  unfolding swap back_up move_in
  swap-err r (inl old) h = ground arith
  swap-err r (inr none_kept) h = ground arith

module _ (g : Grants) (pkg : Package) (s : FilePath) (fs : Files) where
  stage-elsewhere : (q : FilePath) → same_path s q ≡ false → (stage g pkg s fs).0 q ≡ fs q
  unfolding stage
  stage-elsewhere q sq = ground arith

  stage-ok :
      same_path s s ≡ true
      → (stage g pkg s fs).1 ≡ true
      → (stage g pkg s fs).0 s ≡ some (record { content = pkg.binary; executable = true })
  unfolding stage
  stage-ok ss h = ground arith

module _ (g : Grants) (s : FilePath) (outcome : UpdateOutcome) (fs : Files) where
  attempt-ok :
      (checks : Result (Unit {0})) (r : Files × Result (Unit {0})) {o : UpdateOutcome}
      → (clean_up g s outcome (attempt checks fs r)).1 ≡ ok o
      → (r.1 ≡ ok tt) × ((clean_up g s outcome (attempt checks fs r)).0 ≡ r.0)
  attempt-ok (ok u) (f, ok v) h = (refl, refl)
  attempt-ok (ok u) (f, err e) h = absurd (cc)
  attempt-ok (err e) r h = absurd (cc)

  -- A path where neither the start nor the failed swap changes the file.
  attempt-err :
      (checks : Result (Unit {0})) (r : Files × Result (Unit {0})) {e : UpdateError} (q : FilePath)
      → same_path s q ≡ false
      → ((e' : UpdateError) → r.1 ≡ err e' → r.0 q ≡ fs q)
      → (clean_up g s outcome (attempt checks fs r)).1 ≡ err e
      → (clean_up g s outcome (attempt checks fs r)).0 q ≡ fs q
  attempt-err (ok u) (f, ok v) q sq k h = absurd (cc)
  attempt-err (ok u) (f, err e') q sq k h = ground (arith, k e' refl)
  attempt-err (err e') r q sq k h = ground arith

module _ (a s b : FilePath) (apart : AreApart a s b) (cmd : Commands) (g : Grants)
    (opts : ApplyOptions) (pkg : Package) (outcome : UpdateOutcome) (fs : Files) where
  abbrev finished : Files → Files × Result UpdateOutcome
  finished marked = clean_up g s outcome (check_and_swap cmd g opts a s b marked)

  finished-ok :
      (marked : Files) {o : UpdateOutcome}
      → (finished marked).1 ≡ ok o
      → ((swap g a s b marked).1 ≡ ok tt) × ((finished marked).0 ≡ (swap g a s b marked).0)
  unfolding check_and_swap
  finished-ok marked h =
      attempt-ok g s outcome marked
        (do sanity cmd opts (marked s); migrate_with cmd opts (marked s)) (swap g a s b marked) h

  finished-err :
      (marked : Files) {e : UpdateError}
      → g.restore ≡ true
      → (exists a marked ≡ true) ⊎ (exists b marked ≡ false)
      → (finished marked).1 ≡ err e
      → (finished marked).0 a ≡ marked a
  unfolding check_and_swap
  finished-err marked r there h =
      attempt-err g s outcome marked
        (do sanity cmd opts (marked s); migrate_with cmd opts (marked s)) (swap g a s b marked) a
        apart.sa (λ e'. swap-err a s b apart g marked r there) h

  -- The paths after a successful installation.
  pub record IsSwapped (after : Files) : Type 0 where
    pub at_binary : after a ≡ some (record { content = pkg.binary; executable = true })
    pub at_backup : after b ≡ (if exists a fs then fs a else fs b)
    pub at_staged : after s ≡ none
    pub elsewhere :
        (q : FilePath)
        → same_path a q ≡ false
        → same_path s q ≡ false
        → same_path b q ≡ false
        → after q ≡ fs q

  finished-IsSwapped :
      (marked : Files)
      → marked s ≡ some (record { content = pkg.binary; executable = true })
      → ((q : FilePath) → same_path s q ≡ false → marked q ≡ fs q)
      → (swap g a s b marked).1 ≡ ok tt
      → IsSwapped (swap g a s b marked).0
  finished-IsSwapped marked new kept h =
      let k = swap-ok a s b apart g marked h in
      record {
        at_binary = k.0 ∙ new;
        at_backup = rw (← kept a apart.sa) (rw (← kept b apart.sb) k.1);
        at_staged = k.2;
        elsewhere = λ q aq sq bq. swap-elsewhere a s b apart g marked q aq sq bq ∙ kept q sq;
      }

  pub install-ok :
      {o : UpdateOutcome}
      → (install cmd g opts pkg a s b outcome fs).1 ≡ ok o
      → IsSwapped (install cmd g opts pkg a s b outcome fs).0
  unfolding install
  install-ok h = go (stage g pkg s fs) refl h
    where
      go :
          (c : Files × Bool) {o : UpdateOutcome}
          → stage g pkg s fs ≡ c
          → (after_stage c finished).1 ≡ ok o
          → IsSwapped (after_stage c finished).0
      go (marked, false) e h = absurd (cc)
      go (marked, true) e h =
          let k = finished-ok marked h in
          subst IsSwapped (sym k.1) (
            finished-IsSwapped marked
              (sym (ap (λ (c : Files × Bool). c.0 s) e)
                ∙ stage-ok g pkg s fs apart.ss (ap (λ (c : Files × Bool). c.1) e))
              (λ q sq.
                subst (λ (c : Files × Bool). c.0 q ≡ fs q) e (stage-elsewhere g pkg s fs q sq))
              k.0)

  pub install-err :
      {e : UpdateError}
      → g.restore ≡ true
      → (exists a fs ≡ true) ⊎ (exists b fs ≡ false)
      → (install cmd g opts pkg a s b outcome fs).1 ≡ err e
      → (install cmd g opts pkg a s b outcome fs).0 a ≡ fs a
  unfolding install
  install-err r there h = go (stage g pkg s fs) refl h
    where
      go :
          (c : Files × Bool) {e : UpdateError}
          → stage g pkg s fs ≡ c
          → (after_stage c finished).1 ≡ err e
          → (after_stage c finished).0 a ≡ fs a
      go (marked, false) e h =
          subst (λ (c : Files × Bool). c.0 a ≡ fs a) e (stage-elsewhere g pkg s fs a apart.sa)
      go (marked, true) e h =
          let at_a : marked a ≡ fs a =
            subst (λ (c : Files × Bool). c.0 a ≡ fs a) e (stage-elsewhere g pkg s fs a apart.sa) in
          let at_b : marked b ≡ fs b =
            subst (λ (c : Files × Bool). c.0 b ≡ fs b) e (stage-elsewhere g pkg s fs b apart.sb) in
          finished-err marked r (rw at_a (rw at_b there)) h ∙ at_a

-- A rollback with every rename granted swaps the binary `a` and the backup `b`.
pub swap_back-swaps :
    (cmd : Commands) (g : RollbackGrants) (a t b : FilePath) (fs : Files)
    → AreApart a t b
    → g.set_aside ≡ true
    → g.restore ≡ true
    → g.keep ≡ true
    → exists a fs ≡ true
    → exists b fs ≡ true
    → ((swap_back cmd g a b t fs).0 a ≡ fs b)
      × ((swap_back cmd g a b t fs).0 b ≡ fs a)
      × ((swap_back cmd g a b t fs).1 ≡ ok (cmd.version_text (fs b)))
unfolding swap_back
swap_back-swaps cmd g a t b fs apart ga gr gk ea eb = ground arith
