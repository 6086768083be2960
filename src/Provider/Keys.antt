-- ===== src/Provider/Keys.antt =====
-- internal/provider/key_manager.go and key_selector.go. The store, the cipher, the clock and
-- `crypto/rand` are arguments; times are nanoseconds. Fields of a key's record that the code never
-- reads are left out. Weights are `int`s whose sum is far below 2 ^ 63.
use Prim.Native.Char.{code}
use Prim.Native.String.{◌++◌ as str_append}
use llm_router.Common.{
  ℕ, zero, suc, ◌+◌, ◌-◌, ◌%◌, String, Bool, Option, none, some, List, [], ◌∷◌, str_eq, ltb,
  if◌then◌else◌, select, lookup, insert,
}
use llm_router.Common.Int.{ℤ, pos, negsuc}
use llm_router.Common.Texts.{has_prefix}
use llm_router.Common.Fallible.{Result, ok, err}
pub mod Pick
pub mod Cached
pub mod Invalidate
mod Tests

pub record ProviderKeyRecord : Type 0 where
  pub id : String
  pub provider : String
  pub key_alias : String
  pub encrypted_key : List ℕ
  pub group_name : String
  pub weight : ℤ
  pub is_active : Bool

pub record ProviderKey : Type 0 where
  pub id : String
  pub key_alias : String
  pub decrypted_key : String
  pub group_name : String
  pub weight : ℤ

pub record KeyHost (W : Type 0) : Type 0 where
  pub now : W → ℕ
  pub random : W → Option ℕ × W
  pub list_active : String → String → W → Result (List ProviderKeyRecord) × W
  pub decrypt : List ℕ → Option String

-- An entry of the cache: a value of `cache`, and that of `cacheTime` for the same key.
pub record KeyEntry : Type 0 where
  pub keys : List ProviderKey
  pub loaded_at : ℕ

-- `configured` says that there are a store and a cipher. The code writes and deletes the
-- entries of `cache` and `cacheTime` together.
pub record KeyManager : Type 0 where
  pub configured : Bool
  pub fallback : List (String × String)
  pub cache : List (String × KeyEntry)
  pub cache_ttl : ℕ

unfoldable pub new_key_manager : Bool → List (String × String) → KeyManager
new_key_manager configured fallback = record {
  configured = configured;
  fallback = fallback;
  cache = [];
  cache_ttl = 300_000_000_000;
}

abbrev pub weight_of : ℤ → ℕ
weight_of (pos zero) = 1
weight_of (pos (suc n)) = suc n
weight_of (negsuc n) = 1

unfoldable pub total_weight : List ProviderKey → ℕ
total_weight [] = 0
total_weight (k ∷ ks) = weight_of k.weight + total_weight ks

-- The second loop; the last key is `last`.
unfoldable pub pick_from : List ProviderKey → ProviderKey → ℕ → ℕ → ProviderKey
pick_from [] last pick cumulative = last
pick_from (k ∷ ks) last pick cumulative =
    let rest = pick_from ks last pick (cumulative + weight_of k.weight) in
    if ltb pick (cumulative + weight_of k.weight) then k else rest

abbrev pub last_of : ProviderKey → List ProviderKey → ProviderKey
last_of k [] = k
last_of k (j ∷ ks) = last_of j ks

unfoldable pub cache_key : String → String → String
cache_key provider_name group = str_append provider_name (str_append "/" group)

module _ {W : Type 0} (kh : KeyHost W) where
  abbrev pub modulo : Option ℕ × W → ℕ → Result ℕ × W
  modulo (none, w) n = (err "random selection", w)
  modulo (some r, w) n = (ok (r % n), w)

  unfoldable pub crypto_rand_n : ℕ → W → Result ℕ × W
  crypto_rand_n n w = modulo (kh.random w) n

  abbrev pub picked : Result ℕ × W → ProviderKey → List ProviderKey → Result ProviderKey × W
  picked (err e, w) k ks = (err e, w)
  picked (ok pick, w) k ks = (ok (pick_from (k ∷ ks) (last_of k ks) pick 0), w)

  unfoldable pub weighted_random : List ProviderKey → W → Result ProviderKey × W
  unfolding total_weight pick_from crypto_rand_n
  weighted_random [] w = (err "no keys to select from", w)
  weighted_random (k ∷ []) w = (ok k, w)
  weighted_random (k ∷ j ∷ ks) w = picked (crypto_rand_n (total_weight (k ∷ j ∷ ks)) w) k (j ∷ ks)

  -- The loop over the records.
  abbrev pub decrypted :
      ProviderKeyRecord → Option String → Result (List ProviderKey) → Result (List ProviderKey)
  decrypted rec none rest = err "decrypt key"
  decrypted rec (some s) (err e) = err e
  decrypted rec (some s) (ok ks) = ok (
      record {
        id = rec.id;
        key_alias = rec.key_alias;
        decrypted_key = s;
        group_name = rec.group_name;
        weight = rec.weight;
      }
      ∷ ks)

  unfoldable pub decrypt_all : List ProviderKeyRecord → Result (List ProviderKey)
  decrypt_all [] = ok []
  decrypt_all (rec ∷ recs) = decrypted rec (kh.decrypt rec.encrypted_key) (decrypt_all recs)

  abbrev pub stored :
      KeyManager
      → String
      → Result (List ProviderKey)
      → W
      → Result (List ProviderKey) × KeyManager × W
  stored m cache_key (err e) w = (err e, m, w)
  stored m cache_key (ok ks) w = (
    ok ks,
    record m { cache = insert cache_key (record { keys = ks; loaded_at = kh.now w }) m.cache },
    w,
  )

  abbrev pub loaded :
      KeyManager
      → String
      → Result (List ProviderKeyRecord) × W
      → Result (List ProviderKey) × KeyManager × W
  loaded m cache_key (err e, w) = (err e, m, w)
  loaded m cache_key (ok recs, w) = stored m cache_key (decrypt_all recs) w

  unfoldable pub reload_cache :
      KeyManager → String → String → String → W → Result (List ProviderKey) × KeyManager × W
  unfolding decrypt_all insert
  reload_cache m provider_name group cache_key w =
      loaded m cache_key (kh.list_active provider_name group w)

  -- The keys of an entry that is younger than the limit.
  abbrev pub fresh_keys : KeyManager → ℕ → Option KeyEntry → Option (List ProviderKey)
  fresh_keys m time none = none
  fresh_keys m time (some e) = if ltb (time - e.loaded_at) m.cache_ttl then some e.keys else none

  abbrev pub cached_or :
      Option (List ProviderKey)
      → KeyManager
      → W
      → Result (List ProviderKey) × KeyManager × W
      → Result (List ProviderKey) × KeyManager × W
  cached_or (some ks) m w reloaded = (ok ks, m, w)
  cached_or none m w reloaded = reloaded

  unfoldable pub get_from_cache :
      KeyManager → String → String → W → Result (List ProviderKey) × KeyManager × W
  unfolding reload_cache cache_key
  get_from_cache m provider_name group w =
      cached_or (fresh_keys m (kh.now w) (lookup (cache_key provider_name group) m.cache)) m w
        (reload_cache m provider_name group (cache_key provider_name group) w)

  abbrev pub from_config : Option String → Result String
  from_config none = err "no active API key for provider"
  from_config (some key) = if str_eq key "" then err "no active API key for provider" else ok key

  abbrev pub key_text : Result ProviderKey × W → KeyManager → Result String × KeyManager × W
  key_text (err e, w) m = (err e, m, w)
  key_text (ok k, w) m = (ok k.decrypted_key, m, w)

  -- What follows the lookup of the keys.
  abbrev pub chosen :
      String → Result (List ProviderKey) × KeyManager × W → Result String × KeyManager × W
  chosen provider_name (err e, m, w) = (err e, m, w)
  chosen provider_name (ok [], m, w) = (from_config (lookup provider_name m.fallback), m, w)
  chosen provider_name (ok (k ∷ ks), m, w) = key_text (weighted_random (k ∷ ks) w) m

  unfoldable pub select_key : KeyManager → String → String → W → Result String × KeyManager × W
  unfolding get_from_cache weighted_random
  select_key m provider_name group w =
      if m.configured
      then chosen provider_name (get_from_cache m provider_name group w)
      else (from_config (lookup provider_name m.fallback), m, w)

unfoldable pub drop_prefixed : String → List (String × KeyEntry) → List (String × KeyEntry)
unfolding has_prefix
drop_prefixed p [] = []
drop_prefixed p ((k, e) ∷ m) =
    if has_prefix p k then drop_prefixed p m else (k, e) ∷ drop_prefixed p m

unfoldable pub invalidate_cache : String → KeyManager → KeyManager
unfolding drop_prefixed
invalidate_cache provider_name m = record m { cache = drop_prefixed provider_name m.cache }
