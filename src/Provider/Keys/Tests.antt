-- ===== src/Provider/Keys/Tests.antt =====
-- One provider with two keys of weights 1 and 3.
use llm_router.Common.{
  ℕ, ◌+◌, ◌%◌, ◌≤◌, ◌<◌, String, ◌≡◌, refl, ◌⊎◌, true, false, some, List, [], ◌∷◌, Memᴰ, arith,
}
use llm_router.Common.Int.{pos}
use llm_router.Common.Fallible.{ok}
use llm_router.Provider.Keys.{
  ProviderKeyRecord, ProviderKey, KeyHost, KeyManager, new_key_manager, weight_of, total_weight,
  weighted_random, select_key,
}
use llm_router.Provider.Keys.Pick.{weighted_random_span}
use llm_router.Provider.Keys.Cached.{start, Current, FromConfig, Reach-select_key}

abbrev stored_key : String → ℕ → ProviderKeyRecord
stored_key name n = record {
  id = name;
  provider = "openai";
  key_alias = name;
  encrypted_key = n ∷ [];
  group_name = "";
  weight = pos n;
  is_active = true;
}

abbrev vault : KeyHost ℕ
vault = record {
  now = λ w. w;
  random = λ w. (some (w + 2), w + 1);
  list_active = λ p g w. (ok (stored_key "first" 1 ∷ stored_key "second" 3 ∷ []), w + 1);
  decrypt = λ bytes. some "secret";
}

abbrev open_key : String → ℕ → ProviderKey
open_key name n = record {
  id = name;
  key_alias = name;
  decrypted_key = "secret";
  group_name = "";
  weight = pos n;
}

in_span :
    (total_weight (open_key "first" 1 ∷ [])
      ≤ 3 % total_weight (open_key "first" 1 ∷ open_key "second" 3 ∷ []))
    × (3 % total_weight (open_key "first" 1 ∷ open_key "second" 3 ∷ [])
        < total_weight (open_key "first" 1 ∷ []) + weight_of (pos 3))
unfolding total_weight
in_span = omega arith

weighted_random_span_example :
    (weighted_random vault (open_key "first" 1 ∷ open_key "second" 3 ∷ []) 1).0
    ≡ ok (open_key "second" 3)
weighted_random_span_example =
    weighted_random_span vault (open_key "first" 1) (open_key "second" 3 ∷ []) 1 3
      (open_key "first" 1 ∷ []) [] (open_key "second" 3) refl refl in_span.0 in_span.1

abbrev fresh_manager : KeyManager
fresh_manager = new_key_manager true []

answers : (select_key vault fresh_manager "openai" "" 0).0 ≡ ok "secret"
unfolding select_key new_key_manager
answers = refl

Reach-select_key_example :
    ((ks : List ProviderKey) × (k : ProviderKey) × Current vault "openai" "" ks 0
      × Memᴰ k ks
      × (k.decrypted_key ≡ "secret"))
    ⊎ (FromConfig vault true [] "openai" "secret"
        × ((true ≡ false) ⊎ Current vault "openai" "" [] 0))
Reach-select_key_example =
    Reach-select_key vault true [] "openai" "" (start 0) (omega arith) answers
