-- ===== src/Auth/Boundary.antt =====
-- `security_boundary` of app/main.py, the middleware before every handler, with
-- `is_machine_api_path`, `csrf_valid`, and `required_role` and `authorize_role` of app/auth.py.
-- The verification of a session token and of a machine key is the interface `Service`.
pub mod Mediation
pub mod Tests
use prismux.Prelude.{
  ℕ, Bool, true, false, not, ◌&&◌, ◌||◌, Option, none, some, List, [], ◌∷◌, Str, text, text_eq,
  ◌==◌, contains, split, select, is_blank, starts_with, drop, strip, any, leb, ltb, if◌then◌else◌,
}

pub data Method : Type 0 where
  get head options post put patch delete other : Method

-- `unranked` is any role that `ROLE_RANK` does not have.
pub data Role : Type 0 where
  viewer operator admin unranked : Role

pub data ActorType : Type 0 where
  anonymous user api_key : ActorType

pub record Principal : Type 0 where
  pub actor_type : ActorType
  pub actor_id : Str
  pub role : Role

-- What the boundary reads of a request; an absent cookie or header is the empty text.
pub record Request : Type 0 where
  pub method : Method
  pub path : Str
  pub authorization : Str
  pub access_cookie : Str
  pub csrf_cookie : Str
  pub csrf_header : Str

-- The principal, an `AuthenticationError`, an `AuthorizationError`, or any other exception.
pub data Verified : Type 0 where
  principal : Principal → Verified
  unauthenticated unauthorized broken : Verified

pub record Service : Type 0 where
  pub machine_principal : Str → Verified
  pub user_principal : Str → Verified

pub data Action : Type 0 where
  auth_machine auth_session : Action
  call : Method → Str → Action

pub data AuditOutcome : Type 0 where
  denied success failure : AuditOutcome

pub record AuditEvent : Type 0 where
  pub actor_type : ActorType
  pub actor_id : Option Str
  pub action : Action
  pub outcome : AuditOutcome

-- The handler's answer, with the principal that `request.state` has for it, a refusal, or an
-- exception that leaves the middleware.
pub data Answer : Type 0 where
  handled : Option Principal → ℕ → Answer
  refused : ℕ → Answer
  crashed : Answer

abbrev pub public_app_paths : List Str
public_app_paths =
    text "/"
    ∷ text "/live"
    ∷ text "/history"
    ∷ text "/test"
    ∷ text "/settings"
    ∷ text "/settings/providers"
    ∷ text "/settings/routing"
    ∷ text "/settings/pricing"
    ∷ text "/settings/storage"
    ∷ text "/settings/alerts"
    ∷ text "/settings/access"
    ∷ text "/dashboard"
    ∷ []

abbrev pub public_auth_paths : List Str
public_auth_paths = text "/api/auth/login" ∷ text "/api/auth/refresh" ∷ []

abbrev pub proxy_paths : List Str
proxy_paths = text "/v1/chat/completions" ∷ text "/v1/models" ∷ text "/v1/embeddings" ∷ []

-- `/{provider}/v1/models` and the like (47 is the slash), from the parts of the path that are not empty.
abbrev pub is_provider_path : List Str → Bool
is_provider_path (a ∷ b ∷ c ∷ []) = b == text "v1" && (c == text "models" || c == text "embeddings")
is_provider_path (a ∷ b ∷ c ∷ d ∷ []) =
    b == text "v1" && (c == text "chat" && d == text "completions")
is_provider_path parts = false

unfoldable pub is_machine_api_path : Str → Bool
is_machine_api_path path =
    contains proxy_paths path
    || is_provider_path (select (λ part. not (is_blank part)) (split 47 path))

abbrev pub is_ascii : Str → Bool
is_ascii t = not (any (λ c. leb 128 c) t)

-- `secrets.compare_digest` of two texts: a `TypeError` if one of them is not ASCII.
abbrev pub compare_digest : Str → Str → Option Bool
compare_digest a b = if is_ascii a && is_ascii b then some (a == b) else none

-- `none` is the `TypeError`.
unfoldable pub csrf_valid : Request → Option Bool
csrf_valid r =
    if is_blank r.csrf_cookie || is_blank r.csrf_header
    then some false
    else compare_digest r.csrf_cookie r.csrf_header

abbrev pub is_delete : Method → Bool
is_delete delete = true
is_delete m = false

-- `method in {"POST", "PUT", "PATCH"}`
abbrev pub is_update : Method → Bool
is_update post = true
is_update put = true
is_update patch = true
is_update m = false

abbrev pub is_write : Method → Bool
is_write m = is_update m || is_delete m

abbrev pub is_options : Method → Bool
is_options options = true
is_options m = false

unfoldable pub required_role : Method → Str → Role
required_role method path =
    if path == text "/api/auth/logout"
    then viewer
    else if starts_with path (text "/api/access") || (path == text "/reset" || is_delete method)
    then admin
    else if is_update method
    then operator
    else viewer

-- `ROLE_RANK`
abbrev pub rank : Role → Option ℕ
rank viewer = some 1
rank operator = some 2
rank admin = some 3
rank unranked = none

abbrev pub ranks : Option ℕ → Option ℕ → Bool
ranks (some has) (some needs) = leb needs has
ranks _ _ = false

-- Whether no `AuthorizationError` is raised.
unfoldable pub authorize_role : Principal → Role → Bool
authorize_role p required = ranks (rank p.role) (rank required)

unfoldable pub is_open : Request → Bool
is_open r =
    is_options r.method
    || (r.path == text "/health"
        || (contains public_app_paths r.path
            || (starts_with r.path (text "/assets/") || starts_with r.path (text "/brand/"))))

abbrev pub with_csrf : Principal → Option Bool → Verified
with_csrf p none = broken
with_csrf p (some false) = unauthorized
with_csrf p (some true) = principal p

abbrev pub check_user : Request → Verified → Verified
check_user r (principal p) =
    if authorize_role p (required_role r.method r.path)
    then (if is_write r.method then with_csrf p (csrf_valid r) else principal p)
    else unauthorized
check_user r v = v

-- The body of the `try`.
unfoldable pub verify : Service → Request → Verified
verify service r =
    if is_machine_api_path r.path
    then (if starts_with r.authorization (text "Bearer ")
        then service.machine_principal (strip (drop 7 r.authorization))
        else unauthenticated)
    else (if is_blank r.access_cookie
        then unauthenticated
        else check_user r (service.user_principal r.access_cookie))

abbrev pub denial : Request → AuditEvent
denial r = record {
  actor_type = anonymous;
  actor_id = none;
  action = if is_machine_api_path r.path then auth_machine else auth_session;
  outcome = denied;
}

-- The middleware ends in the handler's exception (`none`) or in its answer. `storable` are the audit
-- events whose insertion does not fail; a failure is passed over.
module _ (handler : Option Principal → Request → Option ℕ) (storable : AuditEvent → Bool) where
  abbrev pub insert_audit_event : AuditEvent → List AuditEvent → List AuditEvent
  insert_audit_event e events = if storable e then e ∷ events else events

  unfoldable pub audited : Request → Principal → ℕ → List AuditEvent → List AuditEvent
  audited r p status events =
      if is_write r.method && not (r.path == text "/api/auth/logout")
      then insert_audit_event
          (record {
            actor_type = p.actor_type;
            actor_id = some p.actor_id;
            action = call r.method r.path;
            outcome = if ltb status 400 then success else failure;
          })
          events
      else events

  abbrev pub after_call :
      Request → Principal → Option ℕ → List AuditEvent → Answer × List AuditEvent
  after_call r p none events = (crashed, events)
  after_call r p (some status) events = (handled (some p) status, audited r p status events)

  abbrev pub answer : Request → Verified → List AuditEvent → Answer × List AuditEvent
  answer r (principal p) events = after_call r p (handler (some p) r) events
  answer r unauthenticated events = (refused 401, insert_audit_event (denial r) events)
  answer r unauthorized events = (refused 403, events)
  answer r broken events = (crashed, events)

  abbrev pub response_of : Option ℕ → Answer
  response_of none = crashed
  response_of (some status) = handled none status

  abbrev pub pass_on : Request → List AuditEvent → Answer × List AuditEvent
  pass_on r events = (response_of (handler none r), events)

  abbrev pub refresh : Option Bool → Request → List AuditEvent → Answer × List AuditEvent
  refresh none r events = (crashed, events)
  refresh (some false) r events = (refused 403, events)
  refresh (some true) r events = pass_on r events

  -- The audit events, newest first, are those that could be inserted.
  unfoldable pub security_boundary :
      Bool → Service → Request → List AuditEvent → Answer × List AuditEvent
  security_boundary security_enabled service r events =
      if not security_enabled
      then pass_on r events
      else if is_open r
      then pass_on r events
      else if contains public_auth_paths r.path
      then (if r.path == text "/api/auth/refresh"
          then refresh (csrf_valid r) r events
          else pass_on r events)
      else answer r (verify service r) events
