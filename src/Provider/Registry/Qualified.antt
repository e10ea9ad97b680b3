-- ===== src/Provider/Registry/Qualified.antt =====
-- Requests to one provider: app/main.py writes the provider into the model, and
-- app/multi_provider.py reads it out again.
use mathlib.Core.List.{reverse, reverse-append, reverse-reverse, append_assoc}
use prismux.Prelude.{
  ◌≡◌, ◌≢◌, refl, sym, ap, ◌∙◌, inl, inr, Bool, true, false, not, ◌||◌, Option, none, some, List,
  [], ◌∷◌, ◌++◌, ℕ_eq, ◌==◌, eq_refl, contains, lookup, Str, text, text_eq, strip, split_once,
  split_once-append, split_once-split, is_blank, IsTrimmed, strip-IsTrimmed, strip-same, Starts,
  Starts-append, Starts-append_left, Bool-cases, Option-cases, arith,
}
use prismux.Json.{Value, Fields, get-put, str, obj, get, get_null, put}
use prismux.Provider.Config.{RouteTarget}
use prismux.Provider.Runtime.{Runtime}
use prismux.Provider.Registry.{
  Registry, ok, resolve, requested_or_default, select_targets, payload, failed, not_found, disabled,
  no_scoped_model, foreign_model, qualify, with_model, own_model, scoped_model, scoped_body,
  provider_scoped_payload, enabled_targets,
}

-- What the pattern of `ProviderConfig.id` gives: an id is not empty, does not begin with white
-- space and holds no colon.
pub record IsId (id : Str) : Type 0 where
  pub filled : id ≢ []
  pub starts : Starts id
  pub no_colon : contains id b':' ≡ false

-- The rule of `update_routes_api`: no alias holds `::`.
abbrev pub PlainAliases : Registry → Type 0
PlainAliases registry = (a b : Str) → lookup (qualify a b) registry.routes ≡ none

abbrev pub only_target : Str → Str → List RouteTarget
only_target provider_id model = record { provider_id = provider_id; model = model } ∷ []

not_blank : (s : Str) → s ≢ [] → is_blank s ≡ false
not_blank [] h = absurd (h refl)
not_blank (c ∷ s) h = refl

reverse_filled : (s : Str) → s ≢ [] → reverse s ≢ []
reverse_filled s h e = h (sym (reverse-reverse s) ∙ ap reverse e)

append_filled : (s t : Str) → s ≢ [] → s ++ t ≢ []
append_filled [] t h = absurd (h refl)
append_filled (c ∷ s) t h = λ e. cc e

or_false : (a b : Bool) → (a || b) ≡ false → b ≡ false
or_false a b h = ground arith

tail_trimmed :
    (model p m : Str)
    → IsTrimmed model
    → split_once (text "::") model ≡ some (p, m)
    → Starts (reverse m)
unfolding text
tail_trimmed model p m t s = Starts-append_left (reverse m) (reverse (p ++ text "::")) (
    rw
      (
        split_once-split b':' (text ":") model p m s,
        ← append_assoc p (text "::") m,
        reverse-append (p ++ text "::") m,
      )
      at t.right)

module _ (registry : Registry) (plain : PlainAliases registry) (id : Str) (i : IsId id) where
  full-IsTrimmed :
      (model : Str) → model ≢ [] → Starts (reverse model) → IsTrimmed (qualify id model)
  full-IsTrimmed model h k = record {
    left = Starts-append id (text "::" ++ model) i.filled i.starts;
    right =
        rw (reverse-append id (text "::" ++ model), reverse-append (text "::") model, append_assoc)
          (Starts-append (reverse model) _ (reverse_filled model h) k);
  }

  select_qualified :
      (model : Str)
      → model ≢ []
      → select_targets registry (qualify id model) ≡ ok (qualify id model, only_target id model)
  unfolding select_targets text
  select_qualified model h =
      rw
        (
          not_blank (qualify id model) (append_filled id _ i.filled),
          plain id model,
          split_once-append b':' (text ":") id model i.no_colon,
          not_blank id i.filled,
          not_blank model h,
        )
        refl

  -- A model that names its provider goes to that provider alone.
  resolve_qualified :
      (model : Str)
      → model ≢ []
      → Starts (reverse model)
      → resolve registry (str (qualify id model)) ≡ ok (qualify id model, only_target id model)
  unfolding resolve requested_or_default
  resolve_qualified model h k =
      rw
        (
          not_blank (qualify id model) (append_filled id _ i.filled),
          strip-same (qualify id model) (full-IsTrimmed model h k),
        )
        (select_qualified model h)

  -- What a scoped payload promises.
  pub record Goes (fs : Fields) : Type 0 where
    pub runtime : Runtime
    pub model : Str
    pub known : lookup id registry.providers ≡ some runtime
    pub enabled : runtime.config.enabled ≡ true
    pub resolved :
        resolve registry (get_null (text "model") fs) ≡ ok (qualify id model, only_target id model)
    pub alone : enabled_targets registry (only_target id model) ≡ (id, model) ∷ []

  module _ (runtime : Runtime) (known : lookup id registry.providers ≡ some runtime)
      (enabled : runtime.config.enabled ≡ true) (fs fs' : Fields) where
    model_of :
        (model : Str)
        → with_model fs id model ≡ payload fs'
        → get (text "model") fs' ≡ some (str (qualify id model))
    model_of model e =
        let f : put (text "model") (str (qualify id model)) fs ≡ fs' = cc e in
        rw (← f, get-put, eq_refl (text "model"))

    with_model-Goes :
        (model : Str)
        → model ≢ []
        → Starts (reverse model)
        → with_model fs id model ≡ payload fs'
        → Goes fs'
    unfolding enabled_targets
    with_model-Goes model h k e = record {
      runtime = runtime;
      model = model;
      known = known;
      enabled = enabled;
      resolved = rw (model_of model e) (resolve_qualified model h k);
      alone = rw (known, enabled);
    }

    own_model-Goes :
        (model : Str) (o : Option (Str × Str))
        → IsTrimmed model
        → is_blank model ≡ false
        → split_once (text "::") model ≡ o
        → own_model fs id model o ≡ payload fs'
        → Goes fs'
    own_model-Goes model none t b s e = with_model-Goes model (λ z. cc (ap is_blank z, b)) t.right e
    own_model-Goes model (some (p, m)) t b s e = elim (Bool-cases (not (p == id) || is_blank m)) [
      | inl bad ↦ (let f : failed foreign_model ≡ payload fs' = rw bad at e in cc f)
      | inr good ↦
          with_model-Goes m (λ z. cc (ap is_blank z, or_false (not (p == id)) (is_blank m) good))
            (tail_trimmed model p m t s) (rw good at e)
    ]

    scoped_model-Goes : (v : Value) → scoped_model fs id v ≡ payload fs' → Goes fs'
    scoped_model-Goes (str s) e = elim (Bool-cases (is_blank (strip s))) [
      | inl b ↦ (let f : failed no_scoped_model ≡ payload fs' = rw b at e in cc f)
      | inr b ↦
          own_model-Goes (strip s) (split_once (text "::") (strip s)) (strip-IsTrimmed s) b refl
            (rw b at e)
    ]
    scoped_model-Goes _ e = cc e

  scoped_body-Goes :
      (runtime : Runtime) (body : Value) (fs' : Fields)
      → lookup id registry.providers ≡ some runtime
      → runtime.config.enabled ≡ true
      → scoped_body id runtime body ≡ payload fs'
      → Goes fs'
  scoped_body-Goes runtime (obj fs) fs' known enabled e =
      scoped_model-Goes runtime known enabled fs fs' _ e
  scoped_body-Goes runtime _ fs' known enabled e = cc e

  -- A request to a provider's own endpoint that is accepted goes to that provider, which is known
  -- and enabled, and to no other, whatever the routes say: the model that is written into the
  -- payload resolves to one target, and that target is enabled. (Ids are as `ProviderConfig`
  -- accepts them, and no alias holds `::`, as `update_routes_api` sees to.)
  pub provider_scoped_payload-Goes :
      (body : Value) (fs : Fields) → provider_scoped_payload registry id body ≡ payload fs → Goes fs
  unfolding provider_scoped_payload
  provider_scoped_payload-Goes body fs e = elim (Option-cases (lookup id registry.providers)) [
    | inl no_one ↦ (let f : failed not_found ≡ payload fs = rw no_one at e in cc f)
    | inr (runtime, known) ↦ elim (Bool-cases runtime.config.enabled) [
      | inl on ↦ scoped_body-Goes runtime body fs known on (rw (known, on) at e)
      | inr off ↦ (let f : failed disabled ≡ payload fs = rw (known, off) at e in cc f)
    ]
  ]
