-- ===== src/Auth.antt =====
-- internal/auth/virtual_key.go and middleware.go: the check of a virtual key and the middleware that
-- authenticates a request. The cache, the store and the hash are parameters; the updates of the
-- time of last use are left out.
pub mod Laws
mod Tests
use Prim.Native.String.{len, slice}
use text.Mathlib.Text.{starts_with}
use llm_router.Common.{
  ℕ, String, Bool, false, not, ◌&&◌, Option, none, some, List, str_eq, ltb, leb, if◌then◌else◌,
  length,
}
use llm_router.Access.Tools.{contains}

-- The fields of `VirtualKey` that are checked; times are in nanoseconds.
pub record AuthKey : Type 0 where
  pub id : ℕ
  pub is_active : Bool
  pub expires_at : Option ℕ
  pub allowed_models : List String
  pub blocked_models : List String

pub data KeyError : Type 0 where
  key_inactive : KeyError
  key_expired : KeyError
  model_blocked : KeyError
  model_not_allowed : KeyError

abbrev pub past : ℕ → Option ℕ → Bool
past now none = false
past now (some e) = ltb e now

unfoldable pub is_valid : ℕ → AuthKey → Option KeyError
is_valid now k =
    if not k.is_active
    then some key_inactive
    else if past now k.expires_at
    then some key_expired
    else none

unfoldable pub can_access_model : AuthKey → String → Option KeyError
can_access_model k model =
    if contains k.blocked_models model
    then some model_blocked
    else if ltb 0 (length k.allowed_models) && not (contains k.allowed_models model)
    then some model_not_allowed
    else none

-- The token of the Authorization header, "" if it has none.
unfoldable pub bearer_token : String → String
bearer_token h = if starts_with h "Bearer " then slice h 7 (len h) else ""

unfoldable pub key_prefix : String → String
key_prefix raw = if leb 7 (len raw) then slice raw 0 7 else raw

-- What the store answers.
pub data Lookup : Type 0 where
  found : AuthKey → Lookup
  not_found : Lookup
  store_error : Lookup

pub record KeyHost (W : Type 0) : Type 0 where
  pub hash_key : String → String
  -- An error of the cache is a miss.
  pub cache_get : String → W → Option AuthKey × W
  pub cache_set : String → AuthKey → W → W
  pub get_by_hash : String → String → W → Lookup × W
  pub now : W → ℕ

-- The key that the handler gets in the context, or the message of a 401.
pub data Authentication : Type 0 where
  authenticated : AuthKey → Authentication
  unauthorized : String → Authentication

unfoldable pub refusal : KeyError → String
refusal key_expired = "API key has expired"
refusal key_inactive = "API key is inactive"
refusal model_blocked = "API key is inactive"
refusal model_not_allowed = "API key is inactive"

unfoldable pub admit : ℕ → AuthKey → Authentication
unfolding is_valid refusal
admit now k = elim (is_valid now k) [ some e ↦ unauthorized (refusal e) | none ↦ authenticated k ]

module _ {W : Type 0} (kh : KeyHost W) where
  open kh use {hash_key, cache_get, cache_set, get_by_hash, now}

  -- The end of the middleware on a cache miss, by what the store answers.
  unfoldable pub look_up : String → Lookup → W → Authentication × W
  unfolding admit
  look_up hash (found k) w = let w' = cache_set hash k w in (admit (now w') k, w')
  look_up hash not_found w = (unauthorized "invalid API key", w)
  look_up hash store_error w = (unauthorized "authentication error", w)

  unfoldable pub authenticate : String → W → Authentication × W
  unfolding look_up bearer_token key_prefix
  authenticate header w =
      let raw = bearer_token header in
      if str_eq raw ""
      then (unauthorized "missing or malformed Authorization header", w)
      else (let (cached, w₁) = cache_get (hash_key raw) w in
          elim cached [
            | some k ↦ (admit (now w₁) k, w₁)
            | none ↦
                let (answer, w₂) = get_by_hash (key_prefix raw) (hash_key raw) w₁ in
                look_up (hash_key raw) answer w₂
          ])
