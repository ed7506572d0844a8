-- ===== src/Auth/Error.antt =====
-- The errors of crates/server/src/error.rs that authentication and authorization answer with.
use vaylix.Prelude.{String}

pub data ServerError : Type 0 where
  authentication_required permission_denied authentication_configuration : ServerError
  password_policy_violation last_admin_user store_failed : ServerError
  user_already_exists user_not_found role_already_exists role_not_found : String → ServerError
  protected_role invalid_permission : String → ServerError
