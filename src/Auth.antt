-- ===== src/Auth.antt =====
-- src/auth.rs: the key store and the extractor that authenticates a request.
pub mod Admits
use patchbay.Common.{
  Bool, true, false, Option, none, some, List, [], ◌∷◌, Result, ok, err, ◌>>=◌, ok_or, is_empty,
  if◌then◌else◌,
}
use patchbay.Common.Texts.{Text, codes, strip_prefix}
use patchbay.Common.Maps.{Map, get, insert}
use patchbay.Config.{VirtualKey, expose}

pub record KeyIdentity : Type 0 where
  pub name : Text
  pub enforce_private : Bool

-- bearer token -> identity
pub record KeyStore : Type 0 where
  pub inner : Map KeyIdentity

abbrev pub identity_of : VirtualKey → KeyIdentity
identity_of vk = record { name = vk.name; enforce_private = vk.enforce_private }

-- `collect` into the map: the keys are inserted in order.
unfoldable pub collect : Map KeyIdentity → List VirtualKey → Map KeyIdentity
collect m [] = m
collect m (vk ∷ vks) = collect (insert m (expose vk.key) (identity_of vk)) vks

unfoldable pub from_virtual_keys : List VirtualKey → KeyStore
from_virtual_keys keys = record { inner = collect [] keys }

unfoldable pub is_open : KeyStore → Bool
is_open s = is_empty s.inner

unfoldable pub authenticate : KeyStore → Text → Option KeyIdentity
authenticate s token = get s.inner token

-- The message of a rejection; the response has status 401.
pub record AuthError : Type 0 where
  pub message : Text

abbrev pub missing_header : AuthError
missing_header = record { message = codes "missing Authorization header" }

abbrev pub not_bearer : AuthError
not_bearer = record { message = codes "Authorization header must use the Bearer scheme" }

abbrev pub invalid_key : AuthError
invalid_key = record { message = codes "invalid API key" }

abbrev pub anonymous : KeyIdentity
anonymous = record { name = codes "anonymous"; enforce_private = false }

-- `authorization` is the header's value, if the request has one that is visible ASCII.
unfoldable pub from_request_parts : KeyStore → Option Text → Result AuthError KeyIdentity
from_request_parts store authorization = if is_open store then ok anonymous else do
  header ← ok_or authorization missing_header
  token ← ok_or (strip_prefix (codes "Bearer ") header) not_bearer
  ok_or (authenticate store token) invalid_key
