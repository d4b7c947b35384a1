-- ===== src/Accounts/Cookies.antt =====
-- coordinator/auth.py: the session's cookie, the user of a request, and the sign-in's client.
use Prim.Native.String.{◌++◌}
use text.Mathlib.Text.{◌==◌ as str_eq}
use duck_launcher.Base.{
  ℕ, ◌≡◌, refl, inl, inr, Bool, true, false, not, ◌||◌, Option, none, some, coalesce, String,
  if◌then◌else◌, Bool-cases,
}
use duck_launcher.Text.{rstrip_slash}
use duck_launcher.Db.{User}
use duck_launcher.Config.Settings.{CoordinatorSettings, auth_enabled, resolved_oidc_redirect_uri}
use duck_launcher.Accounts.Auth.{Answer, returned, raised}

-- request.state.user, none where the middleware has not run; require_user is the same function.
unfoldable pub get_current_user : Option User → Answer User
get_current_user none = raised 500
get_current_user (some user) = returned user

-- request.url.scheme, and the header x-forwarded-proto.
unfoldable pub cookie_secure : String → Option String → Bool
cookie_secure scheme forwarded = str_eq scheme "https" || str_eq (coalesce forwarded "") "https"

-- A Set-Cookie header of the session; `value` none deletes the cookie.
pub record SetCookie : Type 0 where
  pub key : String
  pub value : Option ℕ
  pub httponly : Bool
  pub secure : Bool
  pub samesite : String
  pub path : String

unfoldable pub set_session_cookie : String → Option String → ℕ → SetCookie
unfolding cookie_secure
set_session_cookie scheme forwarded session_id = record {
  key = "session_id";
  value = some session_id;
  httponly = true;
  secure = cookie_secure scheme forwarded;
  samesite = "lax";
  path = "/";
}

-- delete_cookie with its defaults: neither httponly nor secure, samesite lax.
unfoldable pub clear_session_cookie : SetCookie
clear_session_cookie = record {
  key = "session_id";
  value = none;
  httponly = false;
  secure = false;
  samesite = "lax";
  path = "/";
}

-- What the OAuth client and the cookie of its own session are registered with.
pub record OauthClient : Type 0 where
  pub secret_key : String
  pub session_cookie : String
  pub max_age : ℕ
  pub client_id : String
  pub client_secret : String
  pub server_metadata_url : String
  pub scope : String

unfoldable pub configure_auth : CoordinatorSettings → Option OauthClient
configure_auth settings =
    if auth_enabled settings
    then some (record {
      secret_key = coalesce settings.session_secret "";
      session_cookie = "ducklauncher_oauth";
      max_age = 600;
      client_id = coalesce settings.oidc_client_id "";
      client_secret = coalesce settings.oidc_client_secret "";
      server_metadata_url =
          rstrip_slash (coalesce settings.oidc_issuer_url "")
          ++ "/.well-known/openid-configuration";
      scope = "openid email profile";
    })
    else none

-- `authorize` is what the client makes of the redirect URI.
unfoldable pub auth_login {ℓ} :
    {A : Type ℓ} → (String → Answer A) → CoordinatorSettings → Option OauthClient → Answer A
auth_login authorize settings oauth =
    if not (auth_enabled settings) then raised 404 else elim oauth [
      | none ↦ raised 404
      | some client ↦ authorize (resolved_oidc_redirect_uri settings)
    ]

-- Where the application was configured with its settings, a sign-in is answered with 404 if the
-- settings leave it out, and if not, the client sends the user on with the settings' redirect URI.
auth_login-configure_auth {ℓ} :
    {A : Type ℓ} (authorize : String → Answer A) (settings : CoordinatorSettings)
    → auth_login authorize settings (configure_auth settings) ≡ (
        if auth_enabled settings
        then authorize (resolved_oidc_redirect_uri settings)
        else raised 404)
unfolding auth_login configure_auth
auth_login-configure_auth authorize settings = elim (Bool-cases (auth_enabled settings)) [
  | inl on ↦ rw on refl
  | inr off ↦ rw off refl
]
