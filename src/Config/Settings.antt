-- ===== src/Config/Settings.antt =====
-- config.py: the settings of the coordinator, and what they say of sign-ins.
use Prim.Native.String.{◌++◌}
use duck_launcher.Base.{ℤ, Bool, false, not, ◌&&◌, Option, none, some, String}
use duck_launcher.Text.{is_empty, rstrip_slash}

-- The texts of scheduler_interval_sec and dispatch_timeout_sec stand for their doubles.
pub record CoordinatorSettings : Type 0 where
  pub database_url : String
  pub init_scripts_path : Option String
  pub heartbeat_interval_sec : ℤ
  pub worker_stale_sec : ℤ
  pub scheduler_interval_sec : String
  pub dispatch_timeout_sec : String
  pub oidc_issuer_url : Option String
  pub oidc_client_id : Option String
  pub oidc_client_secret : Option String
  pub oidc_redirect_uri : Option String
  pub session_secret : Option String
  pub session_ttl_hours : ℤ
  pub public_base_url : String

-- A text that is given and not empty.
abbrev pub is_set : Option String → Bool
is_set none = false
is_set (some text) = not (is_empty text)

unfoldable pub auth_enabled : CoordinatorSettings → Bool
auth_enabled settings =
    is_set settings.oidc_issuer_url
    && is_set settings.oidc_client_id
    && is_set settings.oidc_client_secret
    && is_set settings.session_secret

abbrev pub redirect_or : String → Option String → String
redirect_or default none = default
redirect_or default (some String.[]) = default
redirect_or default (some uri) = uri

unfoldable pub resolved_oidc_redirect_uri : CoordinatorSettings → String
unfolding rstrip_slash
resolved_oidc_redirect_uri settings =
    redirect_or (rstrip_slash settings.public_base_url ++ "/auth/callback")
      settings.oidc_redirect_uri
