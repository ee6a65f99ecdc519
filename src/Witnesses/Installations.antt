-- ===== src/Witnesses/Installations.antt =====
-- Devices that get push notifications.
use mathlib.Core.Bool.{Bool}
use loresuelvo_api.Common.{◌≡◌, refl, [], ◌∷◌, some, pos, ◌==ℤ◌}
use loresuelvo_api.Installation.{
  Installation, Registration, Platform, proves_possession, unregister,
}
use loresuelvo_api.Installation.Service.{Tables}
use loresuelvo_api.Installation.Laws.{
  registers, is_invalidated, SameLogin, run, run-unregister, run-SameLogin,
}

-- Every text is an id, and its own hash.
abbrev platform : Platform
platform = record { valid_uuid = λ _. Bool.true; hash = λ s. s }

abbrev phone : Installation
phone = record {
  id = "i";
  user_id = pos 7;
  app = "consumer";
  token = "t";
  locale = "es";
  binding_id = "b";
  enabled = Bool.true;
  revoked = Bool.false;
  secret_hash = some "s";
  revision = pos 0;
}

abbrev delayed : Registration
delayed = record {
  id = "i";
  secret = "s";
  app = "consumer";
  token = "u";
  locale = "es";
  binding_id = "b";
  previous_binding_id = "";
}

abbrev unregistered : Installation
unregistered = record phone { enabled = Bool.false; revoked = Bool.true }

run-unregister_example :
    run platform unregistered (registers (pos 7) "consumer" delayed ∷ []) ≡ unregistered
unfolding unregister ◌==ℤ◌ proves_possession
run-unregister_example =
    run-unregister platform phone (pos 7) "s" "b" (registers (pos 7) "consumer" delayed ∷ [])
      {j = unregistered} refl (refl, tt)

run-SameLogin_example : SameLogin phone (
    run platform phone
      (registers (pos 8) "consumer" (record delayed { secret = "x" }) ∷ is_invalidated ∷ []))
unfolding proves_possession
run-SameLogin_example =
    run-SameLogin platform phone
      (registers (pos 8) "consumer" (record delayed { secret = "x" }) ∷ is_invalidated ∷ [])
      (refl, (tt, tt))

abbrev read : Installation
read = record phone { revision = pos 3 }

abbrev table : Tables
table = record { installations = read ∷ []; users = [] }
