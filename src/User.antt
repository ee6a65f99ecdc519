-- ===== src/User.antt =====
-- internal/domain/{user,consumer,provider}: what the other parts read of a consumer or a provider.
use loresuelvo_api.Common.{ℤ, String}

pub data Role : Type 0 where
  consumer provider admin : Role

pub record User : Type 0 where
  pub id : ℤ
  pub auth_id : String
  pub email : String
  pub role : Role
