-- ===== src/Provider/Charged.antt =====
-- Whatever comes of a call, what was reserved for it is after_settle, and at the cost that is reported.
use vlytics.Provider.Call.{
  send_error, timed_out, body, PredictionContext, Tried, value, raises, PredictionProvider, Call,
  Ended, Facts, no_response, Sent, timed_out, body, ProviderInvocation,
}
use vlytics.Provider.Predict.{
  fail, end_metadata, preflight, is_unresolved, end_response, bill, end_sent, facts_of, predict,
  end_reserved, end_preflight,
}
use vlytics.Provider.{
  non_finite_json, json_decode_error, key_error, type_error, value_error, other_error,
  contract_error, granted, denied, reserve_error, failed, FailureCode, PredictionAttemptResult,
  ProviderResponseMetadata, BudgetAccount, invalid_json, provider_error, IsAccount,
  maximum_call_cost, cost_of, non_finite_probability, contract_error, timeout, config_unresolved,
  Reserved, budget_skipped, input_too_large,
}
use mathlib.Core.Path.{subst, ap, sym}
use vlytics.Prelude.{
  false, Option, none, some, Text, ◌≡◌, refl, arith, ℕ, ◌+◌, ◌≤◌, length, ap, sym, ◌==◌, ltb, ◌∙◌,
}
use vlytics.Provider.Settles.{EndsWith, if-EndsWith, fail-Stays, end_metadata-Stays}
use vlytics.Provider.Billed.{
  Fine, Holds, IsApproved, IsPriced, Charges, Loses, bill-Fine, skip-Fine, IsGranted,
}

module _ {E O S : Type 0} (p : PredictionProvider E O) (b : BudgetAccount S) (spent held : S → ℕ)
    (account : IsAccount b spent held) (context : PredictionContext) where
  abbrev Pays : Call E S → Ended E S (PredictionAttemptResult O) → Type 0
  Pays = Fine p b spent held account context

  abbrev Reserves : Call E S → Call E S → Type 0
  Reserves = Holds p b spent held account context

  abbrev greatest : ℕ
  greatest = maximum_call_cost p.variant

  -- A call whose response cannot be read costs what was reserved.
  unread :
      (before st : Call E S) (f : Facts) (code : FailureCode)
      → Reserves before st
      → f.usage ≡ none
      → greatest ≡ f.cost
      → Pays before (bill p b context greatest (fail p b context failed code f) st)
  unread before st f code h no_usage e =
      bill-Fine p b spent held account context before st greatest f
        (λ st'. fail p b context failed code f st') h e
        (subst (λ u. IsPriced p.variant u f.cost) (sym no_usage) (omega arith))
        λ st'. fail-Stays p b context (IsApproved p b spent held account context) f st' code

  module _ (before : Call E S) (document : Text) (ready : preflight p b context ≡ (document, none))
      (resolved : is_unresolved p b context ≡ false)
      (fits : length document ≤ p.variant.max_input_tokens) where
    end_response-Fine :
        (hash response : Text) (t : Tried ProviderResponseMetadata) (st : Call E S)
        → p.parse_response_metadata response ≡ t
        → Reserves before st
        → Pays before (end_response p b context hash response t st)
    end_response-Fine hash response (value m) st e h =
        bill-Fine p b spent held account context before st _
          (facts_of p b context hash response (some m))
          (end_metadata p b context response m (facts_of p b context hash response (some m))) h refl
          refl
          λ st'.
            end_metadata-Stays p b context (IsApproved p b spent held account context)
              (facts_of p b context hash response (some m)) st' response m
              λ o good. (document, response, m, o, ready, resolved, fits, e, good, refl)
    end_response-Fine hash response (raises non_finite_json) st e h =
        unread before st (facts_of p b context hash response none) non_finite_probability h refl
          refl
    end_response-Fine hash response (raises json_decode_error) st e h =
        unread before st (facts_of p b context hash response none) invalid_json h refl refl
    end_response-Fine hash response (raises key_error) st e h =
        unread before st (facts_of p b context hash response none) invalid_json h refl refl
    end_response-Fine hash response (raises type_error) st e h =
        unread before st (facts_of p b context hash response none) invalid_json h refl refl
    end_response-Fine hash response (raises value_error) st e h =
        unread before st (facts_of p b context hash response none) invalid_json h refl refl
    end_response-Fine hash response (raises (contract_error _)) st e h =
        unread before st (facts_of p b context hash response none) invalid_json h refl refl
    end_response-Fine hash response (raises other_error) st e (same, more, _) = omega arith

    end_sent-Fine :
        (hash : Text) (sent : Sent × E) (s : S)
        → spent s ≡ spent before.budget
        → held s ≡ held before.budget + greatest
        → IsGranted p b spent held account context before
        → Pays before (end_sent p b context hash sent s)
    end_sent-Fine hash (timed_out none, e) s same more ok =
        unread before _ (no_response hash none greatest) timeout (same, more, ok) refl refl
    end_sent-Fine hash (timed_out (some u), e) s same more ok =
        bill-Fine p b spent held account context before _ _
          (no_response hash (some u) (cost_of p.variant u))
          (fail p b context failed timeout (no_response hash (some u) (cost_of p.variant u)))
          (same, more, ok) refl refl
          λ st'.
            fail-Stays p b context (IsApproved p b spent held account context)
              (no_response hash (some u) (cost_of p.variant u)) st' timeout
    end_sent-Fine hash (send_error, e) s same more ok =
        unread before _ (no_response hash none greatest) provider_error (same, more, ok) refl refl
    end_sent-Fine hash (body response, e) s same more ok =
        end_response-Fine hash response (p.parse_response_metadata response) _ refl (same, more, ok)

    end_reserved-Fine :
        (hash : Text) (call : ProviderInvocation) (e : E) (got : Reserved × S) (s : S)
        → before.budget ≡ s
        → b.reserve greatest s ≡ got
        → Pays before (end_reserved p b context hash call e got)
    unfolding end_reserved
    end_reserved-Fine hash call e (granted, s') s at r =
        let (same, more) = account.grants greatest s (ap (λ x. x.0) r) in
        let there = ap (λ x. spent x.1) r in
        let here = ap (λ x. held x.1) r in
        let spent_at = ap spent at in
        let held_at = ap held at in
        end_sent-Fine hash (p.send call e) s' (omega arith) (omega arith)
          (ap (λ x. (b.reserve greatest x).0) at ∙ ap (λ x. x.0) r)
    end_reserved-Fine hash call e (denied, s') s at r =
        let refused = ap (λ x. x.0) r in
        let (same, alike) = account.denies greatest s (λ x. ground arith) in
        let there = ap (λ x. spent x.1) r in
        let here = ap (λ x. held x.1) r in
        let spent_at = ap spent at in
        let held_at = ap held at in
        skip-Fine p b spent held account context before budget_skipped hash e s' (omega arith)
          (omega arith)
    end_reserved-Fine hash call e (reserve_error, s') s at r =
        let refused = ap (λ x. x.0) r in
        let (same, alike) = account.denies greatest s (λ x. ground arith) in
        let there = ap (λ x. spent x.1) r in
        let here = ap (λ x. held x.1) r in
        let spent_at = ap spent at in let held_at = ap held at in omega arith

  end_preflight-Fine :
      (timeout_ms : ℕ) (got : Text × Option FailureCode) (st : Call E S)
      → preflight p b context ≡ got
      → Pays st (end_preflight p b context timeout_ms got st)
  unfolding end_preflight
  end_preflight-Fine timeout_ms (document, some code) st e =
      skip-Fine p b spent held account context st code (p.sha256 document) st.outside st.budget refl
        refl
  end_preflight-Fine timeout_ms (document, none) st e =
      if-EndsWith (Charges p b spent held account context st)
        (Loses p b spent held account context st) (is_unresolved p b context) _ _
        (λ _.
          skip-Fine p b spent held account context st config_unresolved (p.sha256 document)
            st.outside st.budget refl refl)
        λ resolved.
          if-EndsWith (Charges p b spent held account context st)
            (Loses p b spent held account context st)
            (ltb p.variant.max_input_tokens (length document)) _ _
            (λ _.
              skip-Fine p b spent held account context st input_too_large (p.sha256 document)
                st.outside st.budget refl refl)
            λ fits.
              end_reserved-Fine st document e resolved (ground arith) (p.sha256 document) _
                st.outside (b.reserve greatest st.budget) st.budget refl refl

  -- On an account that keeps its promises: when `predict` returns a result, what is held is as
  -- before and what was spent has grown by the cost of the result; that is the cost of its usage if
  -- it has one, and otherwise at most the greatest cost of a call; it is nothing if the greatest
  -- cost was not granted; the result is consistent; and it has succeeded only if the request passed
  -- the checks, the usage was within the limits, the model was of the right version and did not
  -- refuse, and its output was valid. When `predict` raises, spent and held together are no less
  -- than before.
  pub predict-Charges :
      (timeout_ms : ℕ) (st : Call E S)
      → EndsWith
          (Charges p b spent held account context st)
          (Loses p b spent held account context st)
          (predict p b context timeout_ms st)
  unfolding predict
  predict-Charges timeout_ms st =
      if-EndsWith (Charges p b spent held account context st)
        (Loses p b spent held account context st) (timeout_ms == 0) _ _ (λ _. omega arith)
        (λ _. end_preflight-Fine timeout_ms (preflight p b context) st refl)
