-- ===== src/Mcp/Listing.antt =====
-- internal/mcp/proxy.go: the listings, and reading resources and prompts.
use llm_router.Common.{String, not, Option, List, [], map, str_eq, if◌then◌else◌, select}
use llm_router.Access.Tools.{ToolPolicy, can_call_tool, can_access_server}
use llm_router.Mcp.Hub.{
  Server, Raw, Result, ok, err, Tool, Resource, Prompt, tag_tool, tag_resource, tag_prompt, server,
  list_all_tools, list_all_resources, list_all_prompts, hub_read_resource, hub_get_prompt,
}
use llm_router.Mcp.Proxy.{Proxy}

abbrev pub allowed_tools : Option ToolPolicy → List Tool → List Tool
allowed_tools policy = select (λ t. can_call_tool policy t.server t.name)

-- What a failed listing returns beside its error is taken to be empty.
abbrev pub items : {A : Type 0} → Result (List A) → List A
items (ok xs) = xs
items (err e) = []

module _ {W : Type 0} where
  abbrev pub tools_of : Option ToolPolicy → String → Result (List Tool) × W → List Tool × W
  tools_of policy name (ok ts, w) = (allowed_tools policy (map (tag_tool name) ts), w)
  tools_of policy name (err e, w) = ([], w)

  abbrev pub list_tools_from : Option ToolPolicy → String → Result (Server W) → W → List Tool × W
  list_tools_from policy name (ok s) w = tools_of policy name (s.list_tools w)
  list_tools_from policy name (err e) w = ([], w)

  unfoldable pub list_tools : Proxy W → String → Option ToolPolicy → W → List Tool × W
  unfolding server list_all_tools can_call_tool
  list_tools p filter policy w =
      if str_eq filter ""
      then (let (all, w') = list_all_tools p.hub w in (allowed_tools policy all, w'))
      else list_tools_from policy filter (server p.hub filter) w

  abbrev pub list_one :
      {A : Type 0}
      → (Server W → W → Result (List A) × W)
      → (String → A → A)
      → String
      → Result (Server W)
      → W
      → List A × W
  list_one list tag name (ok s) w = let (r, w') = list s w in (map (tag name) (items r), w')
  list_one list tag name (err e) w = ([], w)

  unfoldable pub list_resources : Proxy W → String → Option ToolPolicy → W → List Resource × W
  unfolding server list_all_resources can_access_server
  list_resources p filter policy w =
      if str_eq filter ""
      then (let (all, w') = list_all_resources p.hub w in
          (select (λ r. can_access_server policy r.server) all, w'))
      else if not (can_access_server policy filter)
      then ([], w)
      else list_one (λ s. s.list_resources) tag_resource filter (server p.hub filter) w

  unfoldable pub list_prompts : Proxy W → String → Option ToolPolicy → W → List Prompt × W
  unfolding server list_all_prompts can_access_server
  list_prompts p filter policy w =
      if str_eq filter ""
      then (let (all, w') = list_all_prompts p.hub w in
          (select (λ r. can_access_server policy r.server) all, w'))
      else if not (can_access_server policy filter)
      then ([], w)
      else list_one (λ s. s.list_prompts) tag_prompt filter (server p.hub filter) w

  -- Both return the error of the policy with no tool.
  unfoldable pub read_resource : Proxy W → String → String → Option ToolPolicy → W → Result Raw × W
  unfolding hub_read_resource can_access_server
  read_resource p name uri policy w =
      if not (can_access_server policy name)
      then (err "policy denies access to server", w)
      else hub_read_resource p.hub name uri w

  unfoldable pub get_prompt :
      Proxy W → String → String → List (String × String) → Option ToolPolicy → W → Result Raw × W
  unfolding hub_get_prompt can_access_server
  get_prompt p name prompt args policy w =
      if not (can_access_server policy name)
      then (err "policy denies access to server", w)
      else hub_get_prompt p.hub name prompt args w
