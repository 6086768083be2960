-- ===== src/Mcp/Hub.antt =====
-- internal/mcp/hub.go and types.go: the registry of upstream servers. A server's methods change the
-- state `W` of the outside world. The order of a hub's servers stands for the order in which the
-- goroutines of a listing finish; log lines are left out.
use llm_router.Common.{
  ℕ, String, Bool, Option, none, some, List, [], ◌∷◌, ◌++◌, map, lookup, insert,
}
pub use llm_router.Common.Fallible.{Result, ok, err}

pub record Tool : Type 0 where
  pub name : String
  pub description : String
  pub input_schema : String
  pub server : String

pub record Resource : Type 0 where
  pub uri : String
  pub name : String
  pub description : String
  pub mime_type : String
  pub server : String

pub record PromptArgument : Type 0 where
  pub name : String
  pub description : String
  pub required : Bool

pub record Prompt : Type 0 where
  pub name : String
  pub description : String
  pub arguments : List PromptArgument
  pub server : String

-- The arguments of a tool call: a key, and the JSON text of its value.
abbrev pub Arguments : Type 0
Arguments = List (String × String)

-- `json.RawMessage`.
abbrev pub Raw : Type 0
Raw = List ℕ

-- The interface `Server`.
pub record Server (W : Type 0) : Type 0 where
  pub name : String
  pub connect : W → Option String × W
  pub close : W → Option String × W
  pub health : W → Option String × W
  pub list_tools : W → Result (List Tool) × W
  pub list_resources : W → Result (List Resource) × W
  pub list_prompts : W → Result (List Prompt) × W
  pub call_tool : String → Arguments → W → Result Raw × W
  pub read_resource : String → W → Result Raw × W
  pub get_prompt : String → List (String × String) → W → Result Raw × W

abbrev pub Hub : Type 0 → Type 0
Hub W = List (String × Server W)

-- What a goroutine adds to a listing: nothing if its server fails.
abbrev pub tagged : {A : Type 0} → (String → A → A) → String → Result (List A) → List A
tagged tag name (ok xs) = map (tag name) xs
tagged tag name (err e) = []

abbrev pub tag_tool : String → Tool → Tool
tag_tool name t = record t { server = name }

abbrev pub tag_resource : String → Resource → Resource
tag_resource name r = record r { server = name }

abbrev pub tag_prompt : String → Prompt → Prompt
tag_prompt name p = record p { server = name }

abbrev pub status_of : Option String → String
status_of none = "ok"
status_of (some e) = e

module _ {W : Type 0} where
  abbrev pub new_hub : Hub W
  new_hub = []

  -- A server of the same name is replaced.
  unfoldable pub register : Server W → Hub W → Hub W
  unfolding insert
  register s hub = insert s.name s hub

  -- Errors are logged only.
  unfoldable pub connect : Hub W → W → W
  connect [] w = w
  connect ((name, s) ∷ hub) w = connect hub (s.connect w).1

  unfoldable pub close : Hub W → W → W
  close [] w = w
  close ((name, s) ∷ hub) w = close hub (s.close w).1

  unfoldable pub server_names : Hub W → List String
  server_names [] = []
  server_names ((name, s) ∷ hub) = name ∷ server_names hub

  abbrev pub found : String → Option (Server W) → Result (Server W)
  found name (some s) = ok s
  found name none = err "mcp server not found"

  unfoldable pub server : Hub W → String → Result (Server W)
  server hub name = found name (lookup name hub)

  unfoldable pub gather :
      {A : Type 0}
      → (Server W → W → Result (List A) × W)
      → (String → A → A)
      → Hub W
      → W
      → List A × W
  gather list tag [] w = ([], w)
  gather list tag ((name, s) ∷ hub) w =
      let (r, w') = list s w in
      let (rest, w'') = gather list tag hub w' in (tagged tag name r ++ rest, w'')

  unfoldable pub list_all_tools : Hub W → W → List Tool × W
  unfolding gather
  list_all_tools = gather (λ s. s.list_tools) tag_tool

  unfoldable pub list_all_resources : Hub W → W → List Resource × W
  unfolding gather
  list_all_resources = gather (λ s. s.list_resources) tag_resource

  unfoldable pub list_all_prompts : Hub W → W → List Prompt × W
  unfolding gather
  list_all_prompts = gather (λ s. s.list_prompts) tag_prompt

  -- A request that is sent to one server.
  abbrev pub route :
      {A : Type 0} → Result (Server W) → (Server W → W → Result A × W) → W → Result A × W
  route (ok s) f w = f s w
  route (err e) f w = (err e, w)

  unfoldable pub hub_call_tool : Hub W → String → String → Arguments → W → Result Raw × W
  unfolding server
  hub_call_tool hub name tool args = route (server hub name) (λ s. s.call_tool tool args)

  unfoldable pub hub_read_resource : Hub W → String → String → W → Result Raw × W
  unfolding server
  hub_read_resource hub name uri = route (server hub name) (λ s. s.read_resource uri)

  unfoldable pub hub_get_prompt :
      Hub W → String → String → List (String × String) → W → Result Raw × W
  unfolding server
  hub_get_prompt hub name prompt args = route (server hub name) (λ s. s.get_prompt prompt args)

  unfoldable pub health_all : Hub W → W → List (String × String) × W
  health_all [] w = ([], w)
  health_all ((name, s) ∷ hub) w =
      let (e, w') = s.health w in
      let (rest, w'') = health_all hub w' in ((name, status_of e) ∷ rest, w'')
