-- ===== src/Provider/Settles.antt =====
-- The stages after the settlement of a call leave the budget alone.
use vlytics.Provider.Call.{
  PredictionContext, Tried, value, raises, PredictionProvider, Call, Ended, raised, returned, Facts,
  version_failure, output_failure, is_caught, is_excessive,
}
use vlytics.Provider.Predict.{attempt, fail, end_output, end_text, end_parsed, end_metadata}
use vlytics.Provider.{
  succeeded, failed, FailureCode, PyError, PredictionAttemptResult, is_consistent,
  ProviderResponseMetadata, ParsedProviderResponse, BudgetAccount, invalid_json, provider_error,
}
use vlytics.Prelude.{
  Bool, true, false, Option, none, some, Text, ◌≡◌, refl, arith, Option-cases, inl, inr,
  if◌then◌else◌,
}

abbrev pub EndsWith :
    {E S A : Type 0}
    → (A → Call E S → Type 0)
    → (PyError → Call E S → Type 0)
    → Ended E S A
    → Type 0
EndsWith Q R (raised e st) = R e st
EndsWith Q R (returned a st) = Q a st

pub EndsWith-mono :
    {E S A : Type 0} (Q Q' : A → Call E S → Type 0) (R R' : PyError → Call E S → Type 0)
    (m : Ended E S A)
    → ((a : A) (st : Call E S) → Q a st → Q' a st)
    → ((e : PyError) (st : Call E S) → R e st → R' e st)
    → EndsWith Q R m
    → EndsWith Q' R' m
EndsWith-mono Q Q' R R' (raised e st) f g h = g e st h
EndsWith-mono Q Q' R R' (returned a st) f g h = f a st h

pub if-EndsWith :
    {E S A : Type 0} (Q : A → Call E S → Type 0) (R : PyError → Call E S → Type 0) (b : Bool)
    (x y : Ended E S A)
    → (b ≡ true → EndsWith Q R x)
    → (b ≡ false → EndsWith Q R y)
    → EndsWith Q R (if b then x else y)
if-EndsWith Q R true x y p q = p refl
if-EndsWith Q R false x y p q = q refl

module _ {E O S : Type 0} (p : PredictionProvider E O) (b : BudgetAccount S)
    (context : PredictionContext) where
  -- What is known of a result: its facts, and `A` if it has succeeded.
  abbrev pub Tells :
      (PredictionAttemptResult O → Type 0) → Facts → PredictionAttemptResult O → Type 0
  Tells A f r =
      (is_consistent r ≡ true)
      × (r.usage ≡ f.usage)
      × (r.cost ≡ f.cost)
      × (r.status ≡ succeeded → A r)

  -- A stage after the settlement leaves the budget alone.
  abbrev pub Stays :
      (PredictionAttemptResult O → Type 0)
      → Facts
      → Call E S
      → Ended E S (PredictionAttemptResult O)
      → Type 0
  Stays A f st = EndsWith (λ r st'. Tells A f r × (st' ≡ st)) (λ _ st'. st' ≡ st)

  -- The response was within the limits, of the right version, no refusal, and valid.
  abbrev pub IsGood : Text → ProviderResponseMetadata → O → Type 0
  IsGood response m o =
      (parsed : ParsedProviderResponse) × (text : Text) × (is_excessive p.variant m.usage ≡ false)
      × (version_failure p.variant m.resolved_model_id ≡ none)
      × (p.parse_response response m ≡ value parsed)
      × (parsed.refusal_reason ≡ none)
      × (parsed.output_text ≡ some text)
      × (p.validated_output text context m.resolved_model_id ≡ value o)

  module _ (A : PredictionAttemptResult O → Type 0) (f : Facts) (st : Call E S) where
    pub fail-Stays : (code : FailureCode) → Stays A f st (fail p b context failed code f st)
    fail-Stays code = ((refl, refl, refl, λ e. absurd (ground arith)), refl)

    end_output-Stays :
        (t : Tried O)
        → ((o : O) → t ≡ value o → A (attempt p b context succeeded none f (some o)))
        → Stays A f st (end_output p b context f t st)
    end_output-Stays (value o) good = ((refl, refl, refl, λ _. good o refl), refl)
    end_output-Stays (raises e) good = elim (Option-cases (output_failure e)) [
      | inl not_caught ↦ rw (not_caught, end_output) refl
      | inr (code, caught) ↦ rw (caught, end_output) (fail-Stays code)
    ]

    end_text-Stays :
        (m : ProviderResponseMetadata) (reason text : Option Text)
        → ((s : Text) (o : O)
            → reason ≡ none
            → text ≡ some s
            → p.validated_output s context m.resolved_model_id ≡ value o
            → A (attempt p b context succeeded none f (some o)))
        → Stays A f st (end_text p b context m f reason text st)
    end_text-Stays m none (some text) good = end_output-Stays _ (λ o e. good text o refl refl e)
    end_text-Stays m none none good = fail-Stays _
    end_text-Stays m (some reason) text good = fail-Stays _

    end_parsed-Stays :
        (m : ProviderResponseMetadata) (t : Tried ParsedProviderResponse)
        → ((parsed : ParsedProviderResponse) (s : Text) (o : O)
            → t ≡ value parsed
            → parsed.refusal_reason ≡ none
            → parsed.output_text ≡ some s
            → p.validated_output s context m.resolved_model_id ≡ value o
            → A (attempt p b context succeeded none f (some o)))
        → Stays A f st (end_parsed p b context m f t st)
    end_parsed-Stays m (value parsed) good =
        end_text-Stays m parsed.refusal_reason parsed.output_text (λ s o. good parsed s o refl)
    end_parsed-Stays m (raises e) good =
        if-EndsWith (λ r st'. Tells A f r × (st' ≡ st)) (λ _ st'. st' ≡ st) (is_caught e) _ _
          (λ _. fail-Stays invalid_json) (λ _. refl)

    pub end_metadata-Stays :
        (response : Text) (m : ProviderResponseMetadata)
        → ((o : O) → IsGood response m o → A (attempt p b context succeeded none f (some o)))
        → Stays A f st (end_metadata p b context response m f st)
    unfolding end_metadata
    end_metadata-Stays response m good =
        if-EndsWith (λ r st'. Tells A f r × (st' ≡ st)) (λ _ st'. st' ≡ st)
          (is_excessive p.variant m.usage) _ _ (λ _. fail-Stays provider_error)
          (λ within. elim (Option-cases (version_failure p.variant m.resolved_model_id)) [
            | inl right ↦ rw right (
                end_parsed-Stays m (p.parse_response response m)
                  (λ parsed s o e no_refusal has_text valid.
                    good o (parsed, s, within, right, e, no_refusal, has_text, valid)))
            | inr (code, wrong) ↦ rw wrong (fail-Stays code)
          ])
