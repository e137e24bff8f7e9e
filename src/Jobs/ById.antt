-- ===== src/Jobs/ById.antt =====
-- The statements of `JobRepository` that select by id and a further test: unique ids leave them one
-- row at most.
use vlytics.Prelude.{
  ℕ, ◌≡◌, refl, Bool, ◌&&◌, none, some, List, [], ◌∷◌, arith, first, count, Distinct, if◌then◌else◌,
  count-zero,
}
use vlytics.Jobs.{Job, has_id, find}
use vlytics.Jobs.Rows.{same_id}

pub same_as : (i : ℕ) (j : Job) (js : List Job) → j.id ≡ i → find j.id js ≡ find i js
same_as i j js e = rw e

module _ (q : Job → Bool) (i : ℕ) where
  abbrev here : Job → Bool
  here j = has_id i j && q j

  pub first-id_none : (js : List Job) → find i js ≡ none → first here js ≡ none
  unfolding find first
  first-id_none [] h = refl
  first-id_none (j ∷ js) h = ground (arith, first-id_none js)

  pub first-id :
      (js : List Job) (r : Job)
      → Distinct same_id js
      → find i js ≡ some r
      → first here js ≡ (if q r then some r else none)
  unfolding find first
  first-id [] r d h = ground arith
  first-id (j ∷ js) r d h = ground (arith, first-id js r d.1, first-id_none js, d.0, same_as i j js)

  pub count-id :
      (js : List Job) (r : Job)
      → Distinct same_id js
      → find i js ≡ some r
      → count here js ≡ (if q r then 1 else 0)
  unfolding find first count
  count-id [] r d h = ground arith
  count-id (j ∷ js) r d h =
      ground (arith, count-id js r d.1, count-zero here js, first-id_none js, d.0, same_as i j js)
