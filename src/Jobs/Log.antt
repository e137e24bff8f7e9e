-- ===== src/Jobs/Log.antt =====
-- The log of attempts: every call of `JobRepository` only adds to it, and adds at most the attempt of
-- a lease that the call itself ends, under the number of that lease.
use mathlib.Core.List.{append_assoc}
use vlytics.Prelude.{
  ℕ, ◌≡◌, refl, ◌⊎◌, inl, inr, Bool, true, none, List, [], ◌∷◌, All, arith, Option-cases,
  Bool-cases, first, Distinct, ◌++◌, ◌∙◌, All-append,
}
use vlytics.Jobs.{
  Job, Attempt, ok, is_running, is_attempt, insert_attempt, abandon, ErrorCode, Details,
  abandoned_attempt, abandon_all, >>=-eq-ok,
}

-- The attempt belongs to the lease that the row records.
abbrev pub IsFor : Job → Attempt → Type 0
IsFor j a = (is_running j.state ≡ true) × (a.job_id ≡ j.id) × (a.attempt_no ≡ j.attempt_no)

abbrev pub same_attempt : Attempt → Attempt → Bool
same_attempt a b = is_attempt a.job_id a.attempt_no b

-- `log'` is `log` with attempts of the kind `Q` added, and repeats no attempt that `log` does not.
abbrev pub Extends : (Attempt → Type 0) → List Attempt → List Attempt → Type 0
Extends Q log log' =
    (new : List Attempt) × (log' ≡ new ++ log)
    × All Q new
    × (Distinct same_attempt log → Distinct same_attempt log')

pub Extends-same :
    (Q : Attempt → Type 0) (log log' : List Attempt) → log' ≡ log → Extends Q log log'
Extends-same Q log log' e = ([], e, tt, λ d. rw e d)

insert_attempt-cases :
    (a : Attempt) (log log' : List Attempt)
    → insert_attempt a log ≡ ok log'
    → (log' ≡ log) ⊎ ((log' ≡ a ∷ log) × (first (same_attempt a) log ≡ none))
unfolding insert_attempt
insert_attempt-cases a log log' e = ground arith

pub insert_attempt-Extends :
    (Q : Attempt → Type 0) (a : Attempt) (log log' : List Attempt)
    → Q a
    → insert_attempt a log ≡ ok log'
    → Extends Q log log'
insert_attempt-Extends Q a log log' h e = elim (insert_attempt-cases a log log' e) [
  | inl same ↦ Extends-same Q log log' same
  | inr (added, fresh) ↦ (a ∷ [], added, (h, tt), λ d. rw added (fresh, d))
]

Extends-trans :
    (Q : Attempt → Type 0) (a b c : List Attempt) → Extends Q a b → Extends Q b c → Extends Q a c
Extends-trans Q a b c (new, e, h, d) (new', e', h', d') =
    (new' ++ new, e' ∙ rw e (simp append_assoc), All-append Q new' new h' h, λ x. d' (d x))

abandon-cases :
    (code : ErrorCode) (details : Details) (now : ℕ) (j : Job) (log log' : List Attempt)
    → abandon code details now j log ≡ ok log'
    → (log' ≡ log)
      ⊎ ((is_running j.state ≡ true)
          × ((owner : ℕ) × (started : ℕ) × (insert_attempt
                  (abandoned_attempt code details now j owner started)
                  log
                ≡ ok log')))
unfolding abandon
abandon-cases code details now j log log' e = elim (Bool-cases (is_running j.state)) [
  | inl r ↦ elim (Option-cases j.lease_owner) [
    | inl n ↦ absurd (ground arith)
    | inr (owner, o) ↦ elim (Option-cases j.lease_started_at) [
      | inl n ↦ absurd (ground arith)
      | inr (started, b) ↦ inr (r, (owner, started, ground arith))
    ]
  ]
  | inr r ↦ inl (ground arith)
]

pub abandon-Extends :
    (Q : Attempt → Type 0) (code : ErrorCode) (details : Details) (now : ℕ) (j : Job)
    (log log' : List Attempt)
    → ((a : Attempt) → IsFor j a → Q a)
    → abandon code details now j log ≡ ok log'
    → Extends Q log log'
abandon-Extends Q code details now j log log' h e =
    elim (abandon-cases code details now j log log' e) [
      | inl same ↦ Extends-same Q log log' same
      | inr (r, (owner, started, i)) ↦
          let a = abandoned_attempt code details now j owner started in
          insert_attempt-Extends Q a log log' (h a (r, refl, refl)) i
    ]

pub abandon_all-Extends :
    (Q : Attempt → Type 0) (code : ErrorCode) (details : Details) (now : ℕ) (js : List Job)
    (log log' : List Attempt)
    → All (λ j. (a : Attempt) → IsFor j a → Q a) js
    → abandon_all code details now js log ≡ ok log'
    → Extends Q log log'
unfolding abandon_all
abandon_all-Extends Q code details now [] log log' h e = Extends-same Q log log' (cc)
abandon_all-Extends Q code details now (j ∷ js) log log' h e =
    let (mid, first_one, others) =
      >>=-eq-ok (abandon code details now j log) (abandon_all code details now js) e in
    Extends-trans Q log mid log' (abandon-Extends Q code details now j log mid h.0 first_one)
      (abandon_all-Extends Q code details now js mid log' h.1 others)
