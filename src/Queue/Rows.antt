-- ===== src/Queue/Rows.antt =====
-- Rows looked up by id, before and after an update.
use scribe_local.Common.{
  ℕ, suc, ◌≤◌, ◌≡◌, Bool, true, List, [], ◌∷◌, some, if◌then◌else◌, find, find-some, All, All-map,
  Any, Bool-cases, inl, inr, arith, ==_iff, subst,
}
use scribe_local.Queue.Table.{Job, updated}
use scribe_local.Queue.Ops.{has_id}
use scribe_local.Queue.WellFormed.{IsAscending, Keeps}

abbrev pub IsRow : Job → List Job → Type 0
IsRow j = Any (λ k. k ≡ j)

IsRow-above : (lo hi : ℕ) (js : List Job) (j : Job) → IsAscending lo hi js → IsRow j js → lo ≤ j.id
IsRow-above lo hi [] j a m = absurd m
IsRow-above lo hi (k ∷ js) j a (inl e) = rw (← e) a.0
IsRow-above lo hi (k ∷ js) j a (inr m) = omega (arith, IsRow-above (suc k.id) hi js j a.1 m, a.0)

All-above : (lo hi : ℕ) (js : List Job) → IsAscending lo hi js → All (λ k. lo ≤ k.id) js
All-above lo hi [] a = tt
All-above lo hi (k ∷ js) a =
    (a.0, All-map _ _ js (λ x h. omega arith) (All-above (suc k.id) hi js a.1))

-- An id names one row.
pub find-IsRow :
    (lo hi : ℕ) (js : List Job) (j : Job)
    → IsAscending lo hi js
    → IsRow j js
    → find (has_id j.id) js ≡ some j
find-IsRow lo hi [] j a m = absurd m
find-IsRow lo hi (k ∷ js) j a (inl e) = rw e (ground arith)
find-IsRow lo hi (k ∷ js) j a (inr m) =
    ground (arith, IsRow-above (suc k.id) hi js j a.1 m, find-IsRow (suc k.id) hi js j a.1 m)

-- The row of an update that passes the test.
pub find-updated :
    (now i : ℕ) (p : Job → Bool) (f : Job → Job) (k : Keeps p f) (js : List Job) (j : Job)
    → find (has_id i) js ≡ some j
    → find (has_id i) (updated now p f js)
      ≡ some (if p j then record (f j) { updated_at = now } else j)
unfolding updated
find-updated now i p f k [] j h = absurd (ground arith)
find-updated now i p f k (x ∷ js) j h = ground (arith, k.same_id x, find-updated now i p f k js j)

pub find-has_id : (i : ℕ) (js : List Job) (j : Job) → find (has_id i) js ≡ some j → j.id ≡ i
find-has_id i js j h = (==_iff j.id i).0 (find-some (has_id i) js j h).0

-- A property of the row with the id holds of every row that has the id.
pub All-has_id :
    (P : Job → Type 0) (lo hi : ℕ) (js : List Job) (j : Job)
    → IsAscending lo hi js
    → find (has_id j.id) js ≡ some j
    → P j
    → All (λ k. has_id j.id k ≡ true → P k) js
All-has_id P lo hi [] j a e h = tt
All-has_id P lo hi (x ∷ xs) j a e h = elim (Bool-cases (has_id j.id x)) [
  | inl hit ↦ (
    λ _. subst P (ground arith) h,
    All-map _ _ xs (λ k above same. absurd (ground arith)) (All-above (suc x.id) hi xs a.1),
  )
  | inr miss ↦ (λ same. cc, All-has_id P (suc x.id) hi xs j a.1 (ground arith) h)
]
