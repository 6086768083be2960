-- ===== src/Auth/Tests.antt =====
-- A store of one key, and an empty cache.
use llm_router.Common.{ℕ, ◌≡◌, refl, true, none, some, [], ◌∷◌, str_eq, if◌then◌else◌}
use llm_router.Auth.{
  AuthKey, KeyHost, found, not_found, authenticated, unauthorized, authenticate, can_access_model,
  model_blocked,
}
use llm_router.Auth.Laws.{Vouched, authenticate-Vouched}

abbrev key : AuthKey
key = record {
  id = 7;
  is_active = true;
  expires_at = some 50;
  allowed_models = [];
  blocked_models = "large" ∷ [];
}

abbrev host : KeyHost ℕ
host = record {
  hash_key = λ s. s;
  cache_get = λ s w. (none, w);
  cache_set = λ s k w. w;
  get_by_hash = λ p s w. (if str_eq s "sk-12345" then found key else not_found, w);
  now = λ w. w;
}

authenticate_tests :
    ((authenticate host "Bearer sk-12345" 20).0 ≡ authenticated key)
    × ((authenticate host "Bearer sk-12345" 51).0 ≡ unauthorized "API key has expired")
    × ((authenticate host "Bearer sk-other" 20).0 ≡ unauthorized "invalid API key")
    × ((authenticate host "sk-12345" 20).0
        ≡ unauthorized "missing or malformed Authorization header")
    × (can_access_model key "large" ≡ some model_blocked)
unfolding authenticate can_access_model
authenticate_tests = (refl, refl, refl, refl, refl)

authenticate-Vouched_example : Vouched host "Bearer sk-12345" 20 key
unfolding authenticate
authenticate-Vouched_example = authenticate-Vouched host "Bearer sk-12345" 20 key refl
