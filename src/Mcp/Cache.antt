-- ===== src/Mcp/Cache.antt =====
-- internal/mcp/proxy.go: the cache of tool results. Times are nanoseconds; `now` reads the clock.
-- FNV-1a in hexadecimal, JSON parsing and the decoding of bytes are the record `Host`.
use Prim.Native.String.{◌++◌ as str_append, compare}
use Prim.Native.Nat.{Ordering}
use llm_router.Common.{
  ℕ, ◌+◌, String, Bool, true, false, Option, none, some, List, [], ◌∷◌, ltb, if◌then◌else◌, lookup,
  insert,
}
use llm_router.Common.Sort.{SortSlice}
use llm_router.Mcp.Hub.{Arguments, Raw}

pub record ToolContent : Type 0 where
  pub kind : String
  pub text : String
  pub payload : String
  pub mime_type : String
  pub uri : String

pub record ToolCallRequest : Type 0 where
  pub server : String
  pub tool : String
  pub arguments : Arguments

-- What `json.Unmarshal` leaves in the struct, and whether it reports an error.
pub record Parsed : Type 0 where
  pub failed : Bool
  pub content : List ToolContent
  pub is_error : Bool

pub record Host (W : Type 0) : Type 0 where
  pub now : W → ℕ
  pub sort : SortSlice String
  pub sum_hex : String → String
  pub unmarshal : Raw → Parsed
  pub as_text : Raw → String

pub record CacheEntry : Type 0 where
  pub content : List ToolContent
  pub expires_at : ℕ

pub record ResultCache : Type 0 where
  pub entries : List (String × CacheEntry)
  pub ttl : ℕ

abbrev pub str_less : String → String → Bool
str_less a b = elim (compare a b) [ Ordering.lt ↦ true | _ ↦ false ]

-- The text of the arguments in the order of the sorted keys; a key that is missing has no value.
abbrev pub json_of : Option String → String
json_of (some v) = v
json_of none = "null"

unfoldable pub arguments_text : Arguments → List String → String
arguments_text args [] = ""
arguments_text args (k ∷ ks) =
    str_append k (str_append (json_of (lookup k args)) (arguments_text args ks))

abbrev pub keys : Arguments → List String
keys [] = []
keys ((k, v) ∷ args) = k ∷ keys args

abbrev pub fresh : ℕ → Option CacheEntry → Option (List ToolContent)
fresh time none = none
fresh time (some e) = if ltb e.expires_at time then none else some e.content

-- The loop of `cleanup`.
unfoldable pub sweep : ℕ → List (String × CacheEntry) → List (String × CacheEntry)
sweep time [] = []
sweep time ((k, e) ∷ m) = if ltb e.expires_at time then sweep time m else (k, e) ∷ sweep time m

module _ {W : Type 0} (h : Host W) where
  -- What is hashed.
  unfoldable pub key_text : ToolCallRequest → String
  unfolding arguments_text
  key_text req = str_append req.server (
      str_append "\0" (
        str_append req.tool (
          str_append "\0"
            (arguments_text req.arguments (h.sort.sort str_less (keys req.arguments))))))

  unfoldable pub key : ToolCallRequest → String
  unfolding key_text
  key req = h.sum_hex (key_text req)

  unfoldable pub get : ResultCache → ToolCallRequest → ℕ → Option (List ToolContent)
  unfolding key
  get c req time = fresh time (lookup (key req) c.entries)

  unfoldable pub set : ResultCache → ToolCallRequest → List ToolContent → ℕ → ResultCache
  unfolding key insert
  set c req content time = record c {
    entries = insert (key req) (record { content = content; expires_at = time + c.ttl }) c.entries;
  }

  abbrev pub get_cached : Option ResultCache → ToolCallRequest → ℕ → Option (List ToolContent)
  get_cached none req time = none
  get_cached (some c) req time = get c req time

-- A tick of `cleanup`.
unfoldable pub clean : ResultCache → ℕ → ResultCache
unfolding sweep
clean c time = record c { entries = sweep time c.entries }
