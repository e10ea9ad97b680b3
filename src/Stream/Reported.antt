-- ===== src/Stream/Reported.antt =====
-- The usage that is reported at the end of a stream (`StreamAccumulator.usage` of app/main.py).
use prismux.Prelude.{
  ◌≡◌, ◌≢◌, refl, sym, ◌∙◌, Bool, true, false, Option, none, some, Str, ℤ, ◌+ℤ◌, ◌↔◌,
}
use prismux.Json.{Value, Fields}
use prismux.Provider.Estimate.{to_int, requested_of, estimate_requested_tokens}
use prismux.Stream.{
  StreamAccumulator, Usage, with_prompt, with_estimate, with_requested, estimated_prompt, usage,
}

module _ (parse : Str → Option Value) (show : Value → Str) (parse_int : Str → Option ℤ) where
  abbrev Result : Type 0
  Result = Usage parse show parse_int

  -- A count that the provider reported is kept; the total is the reported one or the sum; and the
  -- usage is marked as estimated unless both counts were reported.
  pub record Reports (a : StreamAccumulator) (u : Result) : Type 0 where
    pub prompt : (n : ℤ) → a.prompt_tokens ≡ some n → u.prompt_tokens ≡ n
    pub completion : (n : ℤ) → a.completion_tokens ≡ some n → u.completion_tokens ≡ n
    pub reported_total : (n : ℤ) → a.total_tokens ≡ some n → u.total_tokens ≡ n
    pub summed_total :
        a.total_tokens ≡ none → u.total_tokens ≡ u.prompt_tokens +ℤ u.completion_tokens
    pub marked : u.estimated ≡ false ↔ ((a.prompt_tokens ≢ none) × (a.completion_tokens ≢ none))

  with_prompt-Reports :
      (a : StreamAccumulator) (p c t : Option ℤ) (prompt : ℤ) (estimated : Bool)
      → a.prompt_tokens ≡ p
      → a.completion_tokens ≡ c
      → a.total_tokens ≡ t
      → ((n : ℤ) → p ≡ some n → prompt ≡ n)
      → (estimated ≡ false ↔ p ≢ none)
      → Reports a (with_prompt parse show parse_int prompt estimated a c)
  with_prompt-Reports a p none none prompt estimated x y z h e = record {
    prompt = λ n k. h n (sym x ∙ k);
    completion = λ n k. cc (y, k);
    reported_total = λ n k. cc (z, k);
    summed_total = λ k. rw z refl;
    marked = (λ k. cc k, λ k. absurd (k.1 y));
  }
  with_prompt-Reports a p none (some m) prompt estimated x y z h e = record {
    prompt = λ n k. h n (sym x ∙ k);
    completion = λ n k. cc (y, k);
    reported_total = λ n k. rw z (cc (z, k));
    summed_total = λ k. cc (z, k);
    marked = (λ k. cc k, λ k. absurd (k.1 y));
  }
  with_prompt-Reports a p (some c) none prompt estimated x y z h e = record {
    prompt = λ n k. h n (sym x ∙ k);
    completion = λ n k. cc (y, k);
    reported_total = λ n k. cc (z, k);
    summed_total = λ k. rw z refl;
    marked = (λ k. (λ j. e.0 k (sym x ∙ j), λ j. cc (y, j)), λ k. e.1 (λ j. k.0 (x ∙ j)));
  }
  with_prompt-Reports a p (some c) (some m) prompt estimated x y z h e = record {
    prompt = λ n k. h n (sym x ∙ k);
    completion = λ n k. cc (y, k);
    reported_total = λ n k. rw z (cc (z, k));
    summed_total = λ k. cc (z, k);
    marked = (λ k. (λ j. e.0 k (sym x ∙ j), λ j. cc (y, j)), λ k. e.1 (λ j. k.0 (x ∙ j)));
  }

  some_not_none : (n : ℤ) → ◌≢◌ {A = Option ℤ} (some n) none
  some_not_none n e = cc e

  abbrev Reported : StreamAccumulator → Option Result → Type 0
  Reported a none = Unit
  Reported a (some u) = Reports a u

  with_requested-Reported :
      (payload : Fields) (a : StreamAccumulator) (max_requested p : Option ℤ)
      → a.prompt_tokens ≡ p
      → Reported a (with_requested parse show parse_int payload a max_requested p)
  with_requested-Reported payload a none p x = tt
  with_requested-Reported payload a (some m) (some prompt) x =
      with_prompt-Reports a (some prompt) a.completion_tokens a.total_tokens prompt false x refl
        refl (λ n k. cc k) (λ k. some_not_none prompt, λ k. refl)
  with_requested-Reported payload a (some m) none x =
      estimated_reported
        (estimated_prompt parse show parse_int m (estimate_requested_tokens show parse_int payload))
    where
      estimated_reported : (o : Option ℤ) → Reported a (with_estimate parse show parse_int a o)
      estimated_reported none = tt
      estimated_reported (some n) =
          with_prompt-Reports a none a.completion_tokens a.total_tokens n true x refl refl
            (λ k e. cc e) (λ k. cc k, λ k. absurd (k refl))

  -- Whenever the usage of a finished stream is computed, a count that the provider reported is
  -- kept, the total is the reported one or else the sum of the two counts, and the usage is marked
  -- as estimated exactly when one of the two counts was not reported.
  pub usage-Reports :
      (payload : Fields) (a : StreamAccumulator) (u : Result)
      → usage parse show parse_int payload a ≡ some u
      → Reports a u
  unfolding usage
  usage-Reports payload a u e = rw e at (
      with_requested-Reported payload a
        (to_int show parse_int (requested_of show parse_int payload)) a.prompt_tokens refl)
