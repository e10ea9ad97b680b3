-- ===== src/Forward/Attempts.antt =====
-- The attempts that the loop of app/main.py on the targets keeps (`forward_chat_request`,
-- `forward_embeddings_request`).
use prismux.Prelude.{
  ℕ, ◌+◌, ◌≡◌, refl, ap, ◌∙◌, ◌⊎◌, inl, inr, Bool, true, false, ◌&&◌, Bool-cases, Option, none,
  some, List, [], ◌∷◌, ◌++◌, Str, arith,
}
use prismux.Json.{Fields}
use prismux.Log.Status.{connection, blocked_destination}
use prismux.Log.Store.{Attempt}
use prismux.Provider.Capacity
use prismux.Provider.Capacity.{acquired, rejected, blocked, looping}
use prismux.Provider.Runtime.{Runtime, falls_back}
use prismux.Forward.{
  Reply, refused, no_connection, no_answer, request_failed, aborts, answered, Trip, Outgoing,
  Prepared, outgoing, adapter_error, breaks_off, Settlement, Endpoint, Progress, Verdict,
  falls_through, breaks, settles, cannot_prepare, raises, hangs, Finish, unanswered, settled,
  unprepared, raised, hung, settle_with, on_reply, after_acquire, prepared, found, try_target,
  go_on, try_targets, is_more, config_of,
}

-- The attempt is the call number `i`, of the provider `id` with the model `model`.
pub record Names (a : Attempt) (i : ℕ) (id model : Str) : Type 0 where
  pub number : a.attempt_number ≡ i
  pub provider : a.provider_id ≡ id
  pub upstream : a.upstream_model ≡ model

-- The next provider was turned to: the destination was blocked or could not be reached, or the
-- answer's status is one of `FALLBACK_STATUS_CODES`; and the reason is kept.
pub record Turned (a : Attempt) : Type 0 where
  pub reason : (r : Str) × (a.fallback_reason ≡ some r)
  pub why :
      ((a.error_type ≡ some blocked_destination) ⊎ (a.error_type ≡ some connection))
      ⊎ ((code : ℕ) × (a.status_code ≡ some code) × (falls_back code ≡ true))

-- The attempts go along the targets from the first, each but the last turned away from; the first
-- argument says whether the last one was kept.
pub data Tried : Bool → ℕ → List (Str × Str) → List Attempt → Type 0 where
  stopped : {i : ℕ} {ts : List (Str × Str)} → Tried false i ts []
  kept :
      {i : ℕ} {id model : Str} {ts : List (Str × Str)} {a : Attempt}
      → Names a i id model
      → a.fallback_reason ≡ none
      → Tried true i ((id, model) ∷ ts) (a ∷ [])
  turned :
      {b : Bool} {i : ℕ} {id model : Str} {ts : List (Str × Str)} {a : Attempt}
      {rest : List Attempt}
      → Names a i id model
      → Turned a
      → Tried b (i + 1) ts rest
      → Tried b i ((id, model) ∷ ts) (a ∷ rest)

-- Whether the function goes on to record the request.
abbrev pub is_recorded : Finish → Bool
is_recorded (unanswered p) = true
is_recorded (settled p s) = true
is_recorded (unprepared p id model e) = false
is_recorded (raised p) = false
is_recorded (hung p) = false

abbrev pub end_of : Finish → Progress
end_of (unanswered p) = p
end_of (settled p s) = p
end_of (unprepared p id model e) = p
end_of (raised p) = p
end_of (hung p) = p

abbrev Adds : (Attempt → Type 0) → List Attempt → List Attempt → Type 0
Adds P before after = (a : Attempt) × (after ≡ before ++ (a ∷ [])) × P a

abbrev Turns : Bool → ℕ → Str → Str → Attempt → Type 0
Turns more i id model a = Names a i id model × Turned a × (more ≡ true)

abbrev Keeps : ℕ → Str → Str → Attempt → Type 0
Keeps i id model a = Names a i id model × (a.fallback_reason ≡ none)

abbrev Tells : Bool → ℕ → Str → Str → List Attempt → Verdict → Type 0
Tells more i id model before (falls_through q) = Adds (Turns more i id model) before q.attempts
Tells more i id model before (breaks q) = Adds (Keeps i id model) before q.attempts
Tells more i id model before (settles q s) = Adds (Keeps i id model) before q.attempts
Tells more i id model before (cannot_prepare q j m e) = q.attempts ≡ before
Tells more i id model before (raises q) = q.attempts ≡ before
Tells more i id model before (hangs q) = q.attempts ≡ before

abbrev named :
    {a : Attempt} {i : ℕ} {id model : Str}
    → a.attempt_number ≡ i
    → a.provider_id ≡ id
    → a.upstream_model ≡ model
    → Names a i id model
named n p u = record { number = n; provider = p; upstream = u }

module _ (ticks : ℕ) where
  settle_with-Tells :
      (more : Bool) (i : ℕ) (id model : Str) (reservation wait_ms : ℕ) (t : Trip) (code : ℕ)
      (p : Progress) (s : Option Settlement)
      → Tells more i id model p.attempts
          (settle_with ticks i id model reservation wait_ms t code p s)
  settle_with-Tells more i id model reservation wait_ms t code p none = refl
  settle_with-Tells more i id model reservation wait_ms t code p (some s) =
      (_, refl, (named refl refl refl, refl))

  module _ (endpoint : Endpoint) (http_reason : ℕ → Str) (trip : ℕ → Outgoing → Trip) where
    on_reply-Tells :
        (more : Bool) (i : ℕ) (r : Runtime) (id model : Str) (reservation wait_ms : ℕ) (t : Trip)
        (reply : Reply) (p : Progress)
        → Tells more i id model p.attempts (
            on_reply ticks endpoint http_reason trip more i r id model reservation wait_ms t reply
              p)
    unfolding on_reply
    on_reply-Tells true i r id model reservation wait_ms t (refused reason) p = (
      _,
      refl,
      (named refl refl refl, record { reason = (reason, refl); why = inl (inl refl) }, refl),
    )
    on_reply-Tells false i r id model reservation wait_ms t (refused reason) p =
        (_, refl, (named refl refl refl, refl))
    on_reply-Tells true i r id model reservation wait_ms t (no_connection name) p = (
      _,
      refl,
      (named refl refl refl, record { reason = (name, refl); why = inl (inr refl) }, refl),
    )
    on_reply-Tells false i r id model reservation wait_ms t (no_connection name) p =
        (_, refl, (named refl refl refl, refl))
    on_reply-Tells more i r id model reservation wait_ms t no_answer p =
        (_, refl, (named refl refl refl, refl))
    on_reply-Tells more i r id model reservation wait_ms t (request_failed name) p =
        (_, refl, (named refl refl refl, refl))
    on_reply-Tells more i r id model reservation wait_ms t aborts p = refl
    on_reply-Tells more i r id model reservation wait_ms t (answered code body) p =
        elim (Bool-cases (falls_back code && more)) [
          | inl passes ↦ rw passes (
            _,
            refl,
            (
              named refl refl refl,
              record {
                reason = (http_reason code, refl);
                why = inr (code, refl, (ground (arith, passes)));
              },
              ground (arith, passes),
            ),
          )
          | inr stays ↦ rw stays (
              settle_with-Tells more i id model reservation wait_ms t code _
                (endpoint.settle r.config model code body))
        ]

    after_acquire-Tells :
        (more : Bool) (i : ℕ) (r : Runtime) (id model : Str) (reservation : ℕ) (selector : Str)
        (t : Trip) (p : Progress) (o : Capacity.Outcome)
        → Tells more i id model p.attempts (
            after_acquire ticks endpoint http_reason trip more i r id model reservation selector t p
              o)
    after_acquire-Tells more i r id model reservation selector t p (acquired wait_ms) =
        on_reply-Tells more i r id model reservation wait_ms t t.reply _
    after_acquire-Tells more i r id model reservation selector t p rejected = refl
    after_acquire-Tells more i r id model reservation selector t p blocked = refl
    after_acquire-Tells more i r id model reservation selector t p looping = refl

    prepared-Tells :
        (more : Bool) (i : ℕ) (r : Runtime) (id model : Str) (reservation : ℕ) (selector : Str)
        (p : Progress) (o : Prepared)
        → Tells more i id model p.attempts
            (prepared ticks endpoint http_reason trip more i r id model reservation selector p o)
    prepared-Tells more i r id model reservation selector p (adapter_error e) = refl
    prepared-Tells more i r id model reservation selector p breaks_off = refl
    prepared-Tells more i r id model reservation selector p (outgoing o) =
        after_acquire-Tells more i r id model reservation selector (trip i o) _
          (Capacity.acquire ticks reservation (trip i o).entered_at r.capacity).1

    found-Tells :
        (more : Bool) (i : ℕ) (id model : Str) (reservation : ℕ) (selector : Str) (payload : Fields)
        (p : Progress) (r : Option Runtime)
        → Tells more i id model p.attempts
            (found ticks endpoint http_reason trip more i id model reservation selector payload p r)
    found-Tells more i id model reservation selector payload p none = refl
    found-Tells more i id model reservation selector payload p (some r) =
        prepared-Tells more i r id model reservation selector p
          (endpoint.prepare r.config payload model)

    abbrev pub Follows : ℕ → List (Str × Str) → List Attempt → Finish → Type 0
    Follows i ts before f =
        (new : List Attempt) × ((end_of f).attempts ≡ before ++ new)
        × Tried (is_recorded f) i ts new

    append_nil : {A : Type 0} (xs : List A) → xs ≡ xs ++ []
    append_nil [] = refl
    append_nil (x ∷ xs) = ap (◌∷◌ x) (append_nil xs)

    append_snoc :
        {A : Type 0} (xs : List A) (a : A) (ys : List A) → (xs ++ (a ∷ [])) ++ ys ≡ xs ++ (a ∷ ys)
    append_snoc [] a ys = refl
    append_snoc (x ∷ xs) a ys = ap (◌∷◌ x) (append_snoc xs a ys)

    go_on-Follows :
        (i : ℕ) (id model : Str) (ts : List (Str × Str)) (before : List Attempt) (v : Verdict)
        (k : Progress → Finish)
        → Tells (is_more ticks endpoint http_reason trip ts) i id model before v
        → ((q : Progress)
            → is_more ticks endpoint http_reason trip ts ≡ true
            → Follows (i + 1) ts q.attempts (k q))
        → Follows i ((id, model) ∷ ts) before (go_on ticks endpoint http_reason trip v k)
    go_on-Follows i id model ts before (falls_through q) k (a, e, (n, t, more)) next =
        let (new, f, tried) = next q more in
        (a ∷ new, f ∙ ap (λ xs. xs ++ new) e ∙ append_snoc before a new, turned n t tried)
    go_on-Follows i id model ts before (breaks q) k (a, e, (n, none_kept)) next =
        (a ∷ [], e, kept n none_kept)
    go_on-Follows i id model ts before (settles q s) k (a, e, (n, none_kept)) next =
        (a ∷ [], e, kept n none_kept)
    go_on-Follows i id model ts before (cannot_prepare q j m x) k e next =
        ([], e ∙ append_nil before, stopped)
    go_on-Follows i id model ts before (raises q) k e next = ([], e ∙ append_nil before, stopped)
    go_on-Follows i id model ts before (hangs q) k e next = ([], e ∙ append_nil before, stopped)

    -- From any point of the loop with targets left, the attempts that it adds are numbered on from
    -- the index and name the targets in their order, without a gap; each that is followed by
    -- another target was refused by the policy, could not connect, or had a status of
    -- `FALLBACK_STATUS_CODES`, and says so; and when the request goes on to be recorded, its last
    -- attempt was made with no reason to fall back.
    pub try_targets-Follows :
        (i : ℕ) (target : Str × Str) (targets : List (Str × Str)) (reservation : ℕ) (selector : Str)
        (payload : Fields) (p : Progress)
        → Follows i (target ∷ targets) p.attempts (
            try_targets ticks endpoint http_reason trip i
              (target ∷ targets)
              reservation
              selector
              payload
              p)
    unfolding try_targets try_target
    try_targets-Follows i (id, model) [] reservation selector payload p =
        go_on-Follows i id model [] p.attempts _ _
          (found-Tells false i id model reservation selector payload p (config_of id p.world))
          (λ q more. absurd (let f : false ≡ true = more in cc f))
    try_targets-Follows i (id, model) (t ∷ ts) reservation selector payload p =
        go_on-Follows i id model (t ∷ ts) p.attempts _ _
          (found-Tells true i id model reservation selector payload p (config_of id p.world))
          (λ q more. try_targets-Follows (i + 1) t ts reservation selector payload q)
