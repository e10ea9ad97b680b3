-- ===== src/Auth/Boundary/Mediation.antt =====
-- What the middleware of app/main.py lets through to a handler.
use prismux.Prelude.{
  eq_false, eq_iff, Bool, ◌<◌, ◌≤◌, ltb, if◌then◌else◌, ℕ, ◌≡◌, refl, ◌≢◌, ◌⊎◌, inl, inr, true,
  false, ◌&&◌, ◌||◌, Bool-cases, Option, none, some, List, ◌∷◌, Str, text, text_eq, ◌==◌, contains,
  is_blank, starts_with, drop, strip, arith,
}
use prismux.Auth.Boundary.{
  Method, Role, viewer, operator, admin, unranked, Principal, Request, Verified, principal,
  unauthenticated, unauthorized, broken, Service, AuditEvent, Action, auth_machine, auth_session,
  call, AuditOutcome, denied, success, failure, anonymous, Answer, handled, refused, crashed,
  public_auth_paths, with_csrf, is_ascii, insert_audit_event, after_call, is_machine_api_path,
  csrf_valid, is_write, required_role, authorize_role, is_open, check_user, verify, rank, ranks,
  is_delete, is_update, denial, audited, answer, security_boundary,
}

-- The caller showed a machine key that the service knows.
pub record HasKey (service : Service) (r : Request) (p : Principal) : Type 0 where
  pub machine_path : is_machine_api_path r.path ≡ true
  pub bearer : starts_with r.authorization (text "Bearer ") ≡ true
  pub key : service.machine_principal (strip (drop 7 r.authorization)) ≡ principal p

-- The caller has a session whose role is enough for the call, and shows for a write the same token
-- in the CSRF cookie and in the header.
pub record HasSession (service : Service) (r : Request) (p : Principal) : Type 0 where
  pub session_path : is_machine_api_path r.path ≡ false
  pub session : service.user_principal r.access_cookie ≡ principal p
  pub ranked : authorize_role p (required_role r.method r.path) ≡ true
  pub csrf :
      is_write r.method ≡ true → (is_blank r.csrf_cookie ≡ false) × (r.csrf_cookie ≡ r.csrf_header)

-- The entry of the audit log for a call that was let in.
abbrev pub call_event : Request → Principal → AuditOutcome → AuditEvent
call_event r p outcome = record {
  actor_type = p.actor_type;
  actor_id = some p.actor_id;
  action = call r.method r.path;
  outcome = outcome;
}

-- A call that was let in is entered if it is a write other than logging out, with its outcome, unless
-- the insertion fails; nothing else is entered.
pub record IsAudited (storable : AuditEvent → Bool) (r : Request) (p : Principal) (status : ℕ)
    (before after : List AuditEvent) : Type 0 where
  pub outcome : AuditOutcome
  pub good : status < 400 → outcome ≡ success
  pub bad : 400 ≤ status → outcome ≡ failure
  pub entered :
      is_write r.method ≡ true
      → r.path ≢ text "/api/auth/logout"
      → storable (call_event r p outcome) ≡ true
      → after ≡ call_event r p outcome ∷ before
  pub lost : storable (call_event r p outcome) ≡ false → after ≡ before
  pub read : is_write r.method ≡ false → after ≡ before
  pub logout : r.path ≡ text "/api/auth/logout" → after ≡ before

-- The entry of the audit log for a caller that was not known.
abbrev pub denied_event : Action → AuditEvent
denied_event action = record {
  actor_type = anonymous;
  actor_id = none;
  action = action;
  outcome = denied;
}

pub record IsDenied (storable : AuditEvent → Bool) (r : Request) (before after : List AuditEvent)
    : Type 0 where
  pub action : Action
  pub machine : is_machine_api_path r.path ≡ true → action ≡ auth_machine
  pub session : is_machine_api_path r.path ≡ false → action ≡ auth_session
  pub entered : storable (denied_event action) ≡ true → after ≡ denied_event action ∷ before
  pub lost : storable (denied_event action) ≡ false → after ≡ before

-- What can raise on the way to the handler: the service, or the comparison of the CSRF tokens.
abbrev pub Breaks : Service → Request → Type 0
Breaks service r =
    (service.machine_principal (strip (drop 7 r.authorization)) ≡ broken)
    ⊎ ((service.user_principal r.access_cookie ≡ broken) ⊎ (csrf_valid r ≡ none))

-- What the boundary does with a request that is not let through unseen.
abbrev pub Guarded :
    (Option Principal → Request → Option ℕ)
    → (AuditEvent → Bool)
    → Service
    → Request
    → List AuditEvent
    → Answer × List AuditEvent
    → Type 0
Guarded handler storable service r before (handled (some p) status, after) =
    (HasKey service r p ⊎ HasSession service r p)
    × (handler (some p) r ≡ some status)
    × IsAudited storable r p status before after
Guarded handler storable service r before (handled none status, after) = ⊥
Guarded handler storable service r before (refused code, after) =
    ((code ≡ 401) × IsDenied storable r before after) ⊎ ((code ≡ 403) × (after ≡ before))
Guarded handler storable service r before (crashed, after) =
    (after ≡ before)
    × (((p : Principal) × ((HasKey service r p ⊎ HasSession service r p)
            × (handler (some p) r ≡ none)))
        ⊎ Breaks service r)

abbrev Allowed : Service → Request → Verified → Type 0
Allowed service r (principal p) = HasKey service r p ⊎ HasSession service r p
Allowed service r unauthenticated = Unit
Allowed service r unauthorized = Unit
Allowed service r broken = Breaks service r

key-Allowed :
    (service : Service) (r : Request) (v : Verified)
    → is_machine_api_path r.path ≡ true
    → starts_with r.authorization (text "Bearer ") ≡ true
    → service.machine_principal (strip (drop 7 r.authorization)) ≡ v
    → Allowed service r v
key-Allowed service r (principal p) m b e = inl (record { machine_path = m; bearer = b; key = e })
key-Allowed service r unauthenticated m b e = tt
key-Allowed service r unauthorized m b e = tt
key-Allowed service r broken m b e = inl e

csrf-same :
    (r : Request)
    → csrf_valid r ≡ some true
    → (is_blank r.csrf_cookie ≡ false) × (r.csrf_cookie ≡ r.csrf_header)
unfolding csrf_valid
csrf-same r e = elim (Bool-cases (is_blank r.csrf_cookie || is_blank r.csrf_header)) [
  | inl blank ↦
      let k : ◌≡◌ {A = Option Bool} (some false) (some true) = rw blank at e in absurd (cc k)
  | inr given ↦ elim (Bool-cases (is_ascii r.csrf_cookie && is_ascii r.csrf_header)) [
    | inr other ↦
        let k : ◌≡◌ {A = Option Bool} none (some true) = rw (given, other) at e in absurd (cc k)
    | inl ascii ↦
        let k : some (r.csrf_cookie == r.csrf_header) ≡ some true = rw (given, ascii) at e in
        (ground (arith, given), (eq_iff r.csrf_cookie r.csrf_header).0 (cc k))
  ]
]

with_csrf-Allowed :
    (service : Service) (r : Request) (p : Principal) (o : Option Bool)
    → csrf_valid r ≡ o
    → is_machine_api_path r.path ≡ false
    → service.user_principal r.access_cookie ≡ principal p
    → authorize_role p (required_role r.method r.path) ≡ true
    → Allowed service r (with_csrf p o)
with_csrf-Allowed service r p none c m e enough = inr (inr c)
with_csrf-Allowed service r p (some false) c m e enough = tt
with_csrf-Allowed service r p (some true) c m e enough =
    inr (record { session_path = m; session = e; ranked = enough; csrf = λ w. csrf-same r c })

check_user-Allowed :
    (service : Service) (r : Request) (v : Verified)
    → is_machine_api_path r.path ≡ false
    → service.user_principal r.access_cookie ≡ v
    → Allowed service r (check_user r v)
check_user-Allowed service r (principal p) m e =
    elim (Bool-cases (authorize_role p (required_role r.method r.path))) [
      | inr low ↦ rw low tt
      | inl enough ↦ rw enough (elim (Bool-cases (is_write r.method)) [
        | inl writes ↦ rw writes (with_csrf-Allowed service r p (csrf_valid r) refl m e enough)
        | inr reads ↦ rw reads (
            inr (record {
              session_path = m;
              session = e;
              ranked = enough;
              csrf = λ w. cc (w, reads);
            }))
      ])
    ]
check_user-Allowed service r unauthenticated m e = tt
check_user-Allowed service r unauthorized m e = tt
check_user-Allowed service r broken m e = inr (inl e)

verify-Allowed : (service : Service) (r : Request) → Allowed service r (verify service r)
unfolding verify
verify-Allowed service r = elim (Bool-cases (is_machine_api_path r.path)) [
  | inl machine ↦ rw machine (elim (Bool-cases (starts_with r.authorization (text "Bearer "))) [
    | inl bearer ↦ rw bearer (
        key-Allowed service r (service.machine_principal (strip (drop 7 r.authorization))) machine
          bearer refl)
    | inr other_scheme ↦ rw other_scheme tt
  ])
  | inr session ↦ rw session (elim (Bool-cases (is_blank r.access_cookie)) [
    | inl blank ↦ rw blank tt
    | inr given ↦
        rw given
          (check_user-Allowed service r (service.user_principal r.access_cookie) session refl)
  ])
]

module _ (handler : Option Principal → Request → Option ℕ) (storable : AuditEvent → Bool) where
  audited-IsAudited :
      (r : Request) (p : Principal) (status : ℕ) (events : List AuditEvent)
      → IsAudited storable r p status events (audited handler storable r p status events)
  unfolding audited
  audited-IsAudited r p status events = record {
    outcome = if ltb status 400 then success else failure;
    good = λ h. ground arith;
    bad = λ h. ground arith;
    entered = λ w l k. rw (w, eq_false r.path (text "/api/auth/logout") l, k) refl;
    lost = λ k. ground (arith, k);
    read = λ w. rw w refl;
    logout = λ l.
        let same = (eq_iff r.path (text "/api/auth/logout")).1 l in
        elim (Bool-cases (is_write r.method)) [ inl w ↦ rw (w, same) refl | inr k ↦ rw k refl ];
  }

  denial-IsDenied :
      (r : Request) (events : List AuditEvent)
      → IsDenied storable r events (insert_audit_event handler storable (denial r) events)
  denial-IsDenied r events = record {
    action = if is_machine_api_path r.path then auth_machine else auth_session;
    machine = λ m. rw m refl;
    session = λ m. rw m refl;
    entered = λ k. rw k refl;
    lost = λ k. rw k refl;
  }

  after_call-Guarded :
      (service : Service) (r : Request) (p : Principal) (events : List AuditEvent) (o : Option ℕ)
      → HasKey service r p ⊎ HasSession service r p
      → handler (some p) r ≡ o
      → Guarded handler storable service r events (after_call handler storable r p o events)
  after_call-Guarded service r p events none a e = (refl, inl (p, (a, e)))
  after_call-Guarded service r p events (some status) a e =
      (a, e, audited-IsAudited r p status events)

  answer-Guarded :
      (service : Service) (r : Request) (events : List AuditEvent) (v : Verified)
      → Allowed service r v
      → Guarded handler storable service r events (answer handler storable r v events)
  answer-Guarded service r events (principal p) a =
      after_call-Guarded service r p events (handler (some p) r) a refl
  answer-Guarded service r events unauthenticated a = inl (refl, denial-IsDenied r events)
  answer-Guarded service r events unauthorized a = inr (refl, refl)
  answer-Guarded service r events broken a = (refl, inr a)

  -- With security on, a request whose path and method are not open and not one of the two public
  -- authentication paths reaches its handler only with a principal: on a machine path, one whose
  -- key the service knows from a bearer header; on any other, one whose session the service knows,
  -- whose role is enough for the method and path, and who shows for a write the CSRF cookie's token
  -- in the header too. Its answer is the handler's, and a write other than logging out is entered in
  -- the audit log as a success below 400 and as a failure else, unless that insertion fails. Without
  -- a principal it gets 401, with one event that denies it, unless that insertion fails, or 403,
  -- with none. An exception, with no event, is the handler's, the service's or that of the
  -- comparison of the CSRF tokens.
  pub security_boundary-Guarded :
      (service : Service) (r : Request) (events : List AuditEvent)
      → is_open r ≡ false
      → contains public_auth_paths r.path ≡ false
      → Guarded handler storable service r events
          (security_boundary handler storable true service r events)
  unfolding security_boundary
  security_boundary-Guarded service r events o a =
      rw o (rw a (answer-Guarded service r events (verify service r) (verify-Allowed service r)))

abbrev Ranked : Role → Role → Type 0
Ranked admin role = role ≡ admin
Ranked operator role = (role ≢ viewer) × (role ≢ unranked)
Ranked viewer role = role ≢ unranked
Ranked unranked role = ⊥

ranks-Ranked : (needed has : Role) → ranks (rank has) (rank needed) ≡ true → Ranked needed has
ranks-Ranked admin admin e = refl
ranks-Ranked admin operator e = cc e
ranks-Ranked admin viewer e = cc e
ranks-Ranked admin unranked e = cc e
ranks-Ranked operator admin e = (λ h. cc h, λ h. cc h)
ranks-Ranked operator operator e = (λ h. cc h, λ h. cc h)
ranks-Ranked operator viewer e = cc e
ranks-Ranked operator unranked e = cc e
ranks-Ranked viewer admin e = λ h. cc h
ranks-Ranked viewer operator e = λ h. cc h
ranks-Ranked viewer viewer e = λ h. cc h
ranks-Ranked viewer unranked e = cc e
ranks-Ranked unranked admin e = cc e
ranks-Ranked unranked operator e = cc e
ranks-Ranked unranked viewer e = cc e
ranks-Ranked unranked unranked e = cc e

needed_role :
    (method : Method) (path : Str)
    → path ≢ text "/api/auth/logout"
    → (required_role method path ≡ admin)
      ⊎ (((required_role method path ≡ operator) × (is_delete method ≡ false))
          ⊎ ((required_role method path ≡ viewer) × (is_write method ≡ false)))
unfolding required_role
needed_role method path n =
    rw (eq_false path (text "/api/auth/logout") n)
      (elim (Bool-cases
        (starts_with path (text "/api/access") || (path == text "/reset" || is_delete method))) [
          | inl yes_admin ↦ inl (rw yes_admin refl)
          | inr low ↦ rw low (elim (Bool-cases (is_update method)) [
            | inl update ↦ inr (inl (rw update refl, ground (arith, low)))
            | inr read ↦ inr (inr (rw read refl, ground (arith, low, read)))
          ])
        ])

-- Apart from logging out, a role that the boundary finds sufficient is one of the three known; it
-- is not a viewer's if the method writes, and it is an administrator's if the method deletes.
pub authorize_role-Ranked :
    (p : Principal) (method : Method) (path : Str)
    → path ≢ text "/api/auth/logout"
    → authorize_role p (required_role method path) ≡ true
    → (p.role ≢ unranked)
      × (is_write method ≡ true → p.role ≢ viewer)
      × (is_delete method ≡ true → p.role ≡ admin)
unfolding authorize_role
authorize_role-Ranked p method path n e = elim (needed_role method path n) [
  | inl a ↦
      let k : p.role ≡ admin = ranks-Ranked admin p.role (rw a at e) in
      (λ h. cc (h, k), λ w h. cc (h, k), λ d. k)
  | inr (inl (o, d)) ↦
      let k : Ranked operator p.role = ranks-Ranked operator p.role (rw o at e) in
      (k.1, λ w. k.0, λ t. cc (d, t))
  | inr (inr (v, w)) ↦
      let k : Ranked viewer p.role = ranks-Ranked viewer p.role (rw v at e) in
      (k, λ t. cc (w, t), λ t. let f : is_write method ≡ true = ground (arith, t) in cc (f, w))
]
