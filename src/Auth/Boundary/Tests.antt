-- ===== src/Auth/Boundary/Tests.antt =====
-- The middleware of app/main.py at concrete requests.
use prismux.Prelude.{
  ℕ, Bool, ◌≡◌, refl, ◌≢◌, true, false, Option, some, [], text, text_eq, list_beq, ◌==◌, contains,
  split, starts_with, eq_iff, if◌then◌else◌,
}
use prismux.Auth.Boundary.{
  put, viewer, operator, admin, unranked, user, Principal, Request, principal, unauthenticated,
  Service, AuditEvent, handled, refused, public_auth_paths, is_machine_api_path, csrf_valid,
  is_write, is_delete, required_role, authorize_role, is_open, verify, security_boundary,
}
use prismux.Auth.Boundary.Mediation.{Guarded, security_boundary-Guarded, authorize_role-Ranked}

abbrev request : Request
request = record {
  method = put;
  path = text "/api/routes";
  authorization = [];
  access_cookie = text "t";
  csrf_cookie = text "c";
  csrf_header = text "c";
}

abbrev ann : Principal
ann = record { actor_type = user; actor_id = text "ann"; role = operator }

abbrev service : Service
service = record {
  machine_principal = λ key. unauthenticated;
  user_principal = λ token. if token == text "t" then principal ann else unauthenticated;
}

abbrev handler : Option Principal → Request → Option ℕ
handler p r = some 200

abbrev storable : AuditEvent → Bool
storable e = true

let_through :
    (security_boundary handler storable true service request []).0 ≡ handled (some ann) 200
unfolding security_boundary is_open starts_with text list_beq verify is_machine_api_path split
    authorize_role required_role csrf_valid
let_through = refl

without_token :
    (security_boundary handler storable true service (record request { csrf_header = [] }) []).0
    ≡ refused 403
unfolding security_boundary is_open starts_with text list_beq verify is_machine_api_path split
    authorize_role required_role csrf_valid
without_token = refl

provider_path : is_machine_api_path (text "/groq/v1/chat/completions") ≡ true
unfolding is_machine_api_path text list_beq split
provider_path = refl

not_open : is_open request ≡ false
unfolding is_open text list_beq starts_with
not_open = refl

not_public : contains public_auth_paths request.path ≡ false
unfolding text list_beq
not_public = refl

security_boundary-Guarded_example :
    Guarded handler storable service request []
      (security_boundary handler storable true service request [])
security_boundary-Guarded_example =
    security_boundary-Guarded handler storable service request [] not_open not_public

not_logout : text "/api/routes" ≢ text "/api/auth/logout"
unfolding text list_beq
not_logout e =
    let f : false ≡ true = (eq_iff (text "/api/routes") (text "/api/auth/logout")).1 e in cc f

operator_may : authorize_role ann (required_role put (text "/api/routes")) ≡ true
unfolding authorize_role required_role text list_beq starts_with
operator_may = refl

authorize_role-Ranked_example :
    (operator ≢ unranked)
    × (is_write put ≡ true → operator ≢ viewer)
    × (is_delete put ≡ true → operator ≡ admin)
authorize_role-Ranked_example =
    authorize_role-Ranked ann put (text "/api/routes") not_logout operator_may
