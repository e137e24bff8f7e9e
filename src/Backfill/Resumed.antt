-- ===== src/Backfill/Resumed.antt =====
-- A run that stops after some pages is taken up where it stopped.
use vlytics.Backfill.Split.{
  with_counts, added_eq, pages, rest, pages_split, pages_counts, with_counts_of,
}
use vlytics.Backfill.Kept.{Ends, >>=-Ends, if-Ends}
use vlytics.Backfill.Forward.{advance_lem, advance-put}
use vlytics.Backfill.Runner.{
  Outside, State, Outcome, BackfillRunner, Failure, raised, returned, ◌>>=◌,
}
use vlytics.Backfill.Fetch.{fetch_with_retry, reading}
use vlytics.Backfill.Pages.{ingest_all}
use vlytics.Backfill.Runs.{
  BackfillResult, result_of, desired, stored, advanced_to, run_page, run_pages, start_from,
  run_leased, is_validation,
}
use vlytics.Backfill.{
  BackfillCheckpoint, load, advance, advanced, Advanced, conflict, has_scope_key,
}
use vlytics.Sync.Scope.{BackfillScope, scope_key}
use vlytics.Prelude.{
  ℕ, zero, suc, ◌+◌, ◌≡◌, refl, false, Option, none, some, arith, sym, ap, ◌∙◌, first,
  if◌then◌else◌, if_true, if_false, inl, inr, Bool-cases, inl, inr, eq_of_text_eq, first_holds,
}

module _ {E : Type 0} (R : Failure → State E → Type 0) where
  bind_cong :
      {A B : Type 0} (Q : A → State E → Type 0) (m : Outcome E A) (f g : A × State E → Outcome E B)
      → Ends Q R m
      → ((a : A) (st : State E) → Q a st → f (a, st) ≡ g (a, st))
      → (m >>= f) ≡ (m >>= g)
  bind_cong Q (raised e st) f g h same = refl
  bind_cong Q (returned (a, st)) f g h same = same a st h

any : {E A : Type 0} (m : Outcome E A) → Ends (λ _ _. Unit {0}) (λ _ _. Unit {0}) m
any (raised f st) = tt
any (returned (a, st)) = tt

abbrev AnyFailure : {E : Type 0} → Failure → State E → Type 0
AnyFailure _ _ = Unit

-- The checkpoint is the one that the store has for the scope.
abbrev IsStored : {E : Type 0} → BackfillScope → BackfillCheckpoint → State E → Type 0
IsStored scope c st = (load scope st.items ≡ some c) × (scope_key c.scope ≡ scope_key scope)

module _ {E : Type 0} (o : Outside E) (scope : BackfillScope) where
  stored-Ends :
      (c : BackfillCheckpoint) (n : ℕ) (st : State E) (got : Advanced)
      → advance c n st.items ≡ got
      → scope_key c.scope ≡ scope_key scope
      → Ends (IsStored scope) AnyFailure (stored o st got)
  stored-Ends c n st (conflict reason) e k = tt
  stored-Ends c n st (advanced c' items) e k =
      let (held, _, _, _) = advance_lem c c' n st.items items e in
      let (same, _) = advance-put c c' n st.items items e in
      (
        ap (λ key. first (has_scope_key key) items) (sym k) ∙ held,
        ap (λ x. scope_key x.scope) same ∙ k,
      )

  module _ (r : BackfillRunner) (v b : ℕ) (deadline : Option ℕ) where
    run_page-IsStored :
        (c : BackfillCheckpoint) (st : State E)
        → scope_key c.scope ≡ scope_key scope
        → Ends (λ got. IsStored scope got.0) AnyFailure (run_page o r scope v b deadline c st)
    unfolding run_page
    run_page-IsStored c st k =
        let size = if is_validation c.phase then v else b in
        >>=-Ends AnyFailure (λ _ _. Unit {0}) (λ got. IsStored scope got.0)
          (fetch_with_retry o r scope c.cursor size deadline st) _
          (any (fetch_with_retry o r scope c.cursor size deadline st))
          λ (page, q, m) st₁ _.
            >>=-Ends AnyFailure (λ _ _. Unit {0}) (λ got. IsStored scope got.0)
              (ingest_all o 0 page.responses st₁) _ (any (ingest_all o 0 page.responses st₁))
              λ accepted st₂ _.
                let (now, st₃) = reading o o.now st₂ in
                let d = desired c page.next_cursor accepted now in
                >>=-Ends AnyFailure (IsStored scope) (λ got. IsStored scope got.0)
                  (advanced_to o d c.generation st₃) _
                  (stored-Ends d c.generation st₃ (advance d c.generation st₃.items) refl k)
                  λ c' st₄ held. held

    page_then-IsStored :
        (n : ℕ) (c : BackfillCheckpoint) (q k : ℕ) (st : State E)
        → ((c : BackfillCheckpoint) (q k : ℕ) (st : State E)
            → IsStored scope c st
            → Ends
                (λ res. IsStored scope res.checkpoint)
                AnyFailure
                (pages o r scope v b deadline n c q k st))
        → scope_key c.scope ≡ scope_key scope
        → Ends
            (λ res. IsStored scope res.checkpoint)
            AnyFailure
            (pages o r scope v b deadline (suc n) c q k st)
    unfolding run_pages
    page_then-IsStored n c q k st later same =
        >>=-Ends AnyFailure (λ got. IsStored scope got.0) (λ res. IsStored scope res.checkpoint)
          (run_page o r scope v b deadline c st) _ (run_page-IsStored c st same)
          λ (c', more, again) st' held.
            if-Ends AnyFailure (λ res. IsStored scope res.checkpoint) c'.is_completed _ _
              (λ _. held) (λ _. later c' (q + more) (k + again) st' held)

    pages-IsStored :
        (n : ℕ) (c : BackfillCheckpoint) (q k : ℕ) (st : State E)
        → IsStored scope c st
        → Ends
            (λ res. IsStored scope res.checkpoint)
            AnyFailure
            (pages o r scope v b deadline n c q k st)
    unfolding run_pages
    pages-IsStored zero c q k st held = held
    pages-IsStored (suc n) c q k st held = page_then-IsStored n c q k st (pages-IsStored n) held.1

    -- A run of at most `n` pages from a checkpoint.
    abbrev begun : ℕ → BackfillCheckpoint × State E → Outcome E BackfillResult
    begun n (c, st) =
        if c.is_completed
        then returned (result_of c 0 0, st)
        else pages o r scope v b deadline n c 0 0 st

    run_leased-begun :
        (rounds n : ℕ) (st : State E)
        → run_leased o rounds r scope v b (some n) deadline st
          ≡ begun n (start_from o scope (load scope st.items) st)
    unfolding run_leased
    run_leased-begun rounds n st = refl

    -- A run that follows one that ended with `res`.
    rest_lem :
        (rounds n : ℕ) (res : BackfillResult) (st : State E)
        → IsStored scope res.checkpoint st
        → rest o r scope v b deadline n (res, st)
          ≡ with_counts res (run_leased o rounds r scope v b (some n) deadline st)
    rest_lem rounds n res st held =
        let resumed : run_leased o rounds r scope v b (some n) deadline st
            ≡ begun n (res.checkpoint, st) =
          run_leased-begun rounds n st
          ∙ ap (λ known. begun n (start_from o scope known st)) held.0 in
        elim (Bool-cases res.checkpoint.is_completed) [
          | inl done ↦
              if_true _ _ done
              ∙ ap (λ w. returned (w, st)) (added_eq res.checkpoint (omega arith) (omega arith))
              ∙ sym (ap (with_counts res) (resumed ∙ if_true _ _ done))
          | inr open_one ↦
              if_false _ _ open_one
              ∙ pages_counts o r scope v b deadline n res.checkpoint res.requests res.retries st
              ∙ with_counts_of res (pages o r scope v b deadline n res.checkpoint 0 0 st)
              ∙ sym (ap (with_counts res) (resumed ∙ if_false _ _ open_one))
        ]

    -- Another run, whose counts are added.
    abbrev pub go_again : ℕ → ℕ → BackfillResult × State E → Outcome E BackfillResult
    go_again rounds n (res, st) =
        with_counts res (run_leased o rounds r scope v b (some n) deadline st)

    -- From an open checkpoint.
    opened :
        (rounds m n : ℕ) (c : BackfillCheckpoint) (st : State E)
        → c.is_completed ≡ false
        → scope_key c.scope ≡ scope_key scope
        → begun (suc m + n) (c, st) ≡ (
            begun (suc m) (c, st) >>= λ (res, st').
            with_counts res (run_leased o rounds r scope v b (some n) deadline st'))
    opened rounds m n c st open_one same =
        if_false _ _ open_one
        ∙ pages_split o r scope v b deadline (suc m) n c 0 0 st open_one
        ∙ bind_cong AnyFailure (λ res. IsStored scope res.checkpoint)
            (pages o r scope v b deadline (suc m) c 0 0 st) _ _
            (page_then-IsStored m c 0 0 st (pages-IsStored m) same) (rest_lem rounds n)
        ∙ sym (
            ap
              (λ x. x >>= λ (res, st').
                with_counts res (run_leased o rounds r scope v b (some n) deadline st'))
              (if_false _ _ open_one))

    begun_twice :
        (rounds m n : ℕ) (st : State E) (known : Option BackfillCheckpoint)
        → load scope st.items ≡ known
        → begun (suc m + n) (start_from o scope known st) ≡ (
            begun (suc m) (start_from o scope known st) >>= λ (res, st').
            with_counts res (run_leased o rounds r scope v b (some n) deadline st'))
    begun_twice rounds m n st none new =
        let (c, st') = start_from o scope none st in opened rounds m n c st' refl refl
    begun_twice rounds m n st (some c) known =
        let same : scope_key c.scope ≡ scope_key scope = sym (
          eq_of_text_eq (scope_key scope) (scope_key c.scope)
            (first_holds (has_scope_key (scope_key scope)) st.items c known)) in
        elim (Bool-cases c.is_completed) [
          | inl done ↦
              let stays = if_true _ (pages o r scope v b deadline (suc m) c 0 0 st) done in
              if_true _ _ done
              ∙ sym (if_true _ (pages o r scope v b deadline n c 0 0 st) done)
              ∙ rest_lem rounds n (result_of c 0 0) st (known, same)
              ∙ sym (ap (λ x. x >>= go_again rounds n) stays)
          | inr open_one ↦ opened rounds m n c st open_one same
        ]

    -- A run of at most some pages (one at least) followed by another, on the same scope, ends as a
    -- run of at most all these pages does: with the same checkpoint and the same state, and with as
    -- many requests and retries in sum; and where one raises, so does the other.
    pub run_leased_resumes :
        (rounds m n : ℕ) (st : State E)
        → run_leased o rounds r scope v b (some (suc m + n)) deadline st
          ≡ (run_leased o rounds r scope v b (some (suc m)) deadline st >>= go_again rounds n)
    run_leased_resumes rounds m n st =
        run_leased-begun rounds (suc m + n) st
        ∙ begun_twice rounds m n st (load scope st.items) refl
        ∙ sym (ap (λ x. x >>= go_again rounds n) (run_leased-begun rounds (suc m) st))
