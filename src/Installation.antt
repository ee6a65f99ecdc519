-- ===== src/Installation.antt =====
-- internal/domain/installation/installation.go: the devices that get push notifications. UUIDs of
-- version 4 in canonical form and SHA-256, whose values have 32 bytes, are parameters; a hash is a text.
pub mod Laws
pub mod Service
pub mod Revisions
use loresuelvo_api.Common.{
  String, Bool, true, false, not, ◌||◌, ◌&&◌, ◌=ₛ◌, Option, none, some, ok, err, ◌>>=◌, ◌>>◌,
  fail_if, if◌then◌else◌, ltb, ◌==◌, ℤ, pos, leb_ℤ, ◌==ℤ◌, is_empty, trim_space,
}
use Prim.Native.Char.{code}
use loresuelvo_api.Audit.{byte_len}
use loresuelvo_api.Errors.{Error, Outcome, InstallationError, installation}

pub record Installation : Type 0 where
  pub id : String
  pub user_id : ℤ
  pub app : String
  pub token : String
  pub locale : String
  pub binding_id : String
  pub enabled : Bool
  pub revoked : Bool
  pub secret_hash : Option String
  pub revision : ℤ

pub record Registration : Type 0 where
  pub id : String
  pub secret : String
  pub app : String
  pub token : String
  pub locale : String
  pub binding_id : String
  pub previous_binding_id : String

-- `validUUID` and `sha256.Sum256`.
pub record Platform : Type 0 where
  pub valid_uuid : String → Bool
  pub hash : String → String

abbrev pub invalid_installation : Error
invalid_installation = installation InstallationError.invalid_installation

abbrev pub forbidden : Error
forbidden = installation InstallationError.forbidden

abbrev pub conflict : Error
conflict = installation InstallationError.conflict

unfoldable pub new_installation :
    String → ℤ → String → String → String → String → Outcome Installation
unfolding byte_len
new_installation raw_id user_id app raw_token locale raw_binding_id = do
  let id = trim_space raw_id
  let token = trim_space raw_token
  let binding_id = trim_space raw_binding_id
  fail_if
      (is_empty id
        || ltb 200 (byte_len id)
        || leb_ℤ user_id (pos 0)
        || (not (app =ₛ "consumer") && not (app =ₛ "provider"))
        || is_empty token
        || ltb 4096 (byte_len token)
        || is_empty binding_id
        || ltb 200 (byte_len binding_id)
        || (not (is_empty locale) && not (locale =ₛ "es") && not (locale =ₛ "en")))
      invalid_installation
  ok (record {
    id = id;
    user_id = user_id;
    app = app;
    token = token;
    locale = if is_empty locale then "es" else locale;
    binding_id = binding_id;
    enabled = true;
    revoked = false;
    secret_hash = none;
    revision = pos 0;
  })

-- `strings.ContainsAny(token, " \t\r\n")`
unfoldable pub has_space : String → Bool
has_space String.[] = false
has_space (String.◌∷◌ c s) =
    code c == 32 || code c == 9 || code c == 13 || code c == 10 || has_space s

abbrev pub same_hash : Option String → String → Bool
same_hash none hash = false
same_hash (some stored) hash = stored =ₛ hash

-- The checks of `Register` on the binding.
unfoldable pub check_binding : Installation → ℤ → Registration → Outcome (Unit {0})
check_binding i user_id r =
    if i.binding_id =ₛ r.binding_id
    then (do
      fail_if (not (i.user_id ==ℤ user_id)) forbidden
      fail_if (not i.enabled && (i.revoked || (i.token =ₛ r.token))) conflict)
    else fail_if (not (r.previous_binding_id =ₛ i.binding_id)) conflict

module _ (platform : Platform) where
  unfoldable pub validate : Registration → Outcome (Unit {0})
  unfolding has_space new_installation
  validate r = do
    fail_if
        (not (platform.valid_uuid r.id)
          || not (platform.valid_uuid r.secret)
          || not (platform.valid_uuid r.binding_id)
          || (not (is_empty r.previous_binding_id)
              && not (platform.valid_uuid r.previous_binding_id)))
        invalid_installation
    fail_if (not (trim_space r.token =ₛ r.token) || has_space r.token) invalid_installation
    _ ← new_installation r.id (pos 1) r.app r.token r.locale r.binding_id
    ok tt

  unfoldable pub new_registered : ℤ → String → Registration → Outcome Installation
  unfolding validate new_installation
  new_registered user_id role r = do
    validate r
    fail_if (not (role =ₛ r.app)) forbidden
    fail_if (not (is_empty r.previous_binding_id)) conflict
    i ← new_installation r.id user_id r.app r.token r.locale r.binding_id
    ok (record i { secret_hash = some (platform.hash r.secret) })

  unfoldable pub proves_possession : Installation → String → Bool
  proves_possession i secret = same_hash i.secret_hash (platform.hash secret)

  -- With an error the installation stays as it was.
  unfoldable pub register : Installation → ℤ → String → Registration → Outcome Installation
  unfolding validate new_installation proves_possession check_binding
  register i user_id role r = do
    validate r
    fail_if
        (not (i.id =ₛ r.id)
          || not (role =ₛ r.app)
          || not (i.app =ₛ r.app)
          || not (proves_possession i r.secret))
        forbidden
    check_binding i user_id r
    renewed ← new_installation r.id user_id r.app r.token r.locale r.binding_id
    ok (record i {
      user_id = renewed.user_id;
      token = renewed.token;
      locale = renewed.locale;
      binding_id = renewed.binding_id;
      enabled = true;
      revoked = false;
    })

  unfoldable pub unregister : Installation → ℤ → String → String → Outcome Installation
  unfolding proves_possession
  unregister i user_id secret binding_id = do
    fail_if (not (platform.valid_uuid secret) || not (platform.valid_uuid binding_id))
        invalid_installation
    fail_if (not (i.user_id ==ℤ user_id) || not (proves_possession i secret)) forbidden
    fail_if (not (i.binding_id =ₛ binding_id)) conflict
    ok (record i { enabled = false; revoked = true })

-- `Invalidate`
unfoldable pub invalidate : Installation → Installation
invalidate i = record i { enabled = false }
