-- ===== src/Mcp/Visible.antt =====
-- internal/mcp/proxy.go: a listing shows only what the policy lets the key use.
use llm_router.Common.{
  String, ◌≡◌, subst, inl, inr, true, Option, List, map, Memᴰ, str_eq, if◌then◌else◌, Bool-cases,
  mem-select,
}
use llm_router.Access.Tools.{ToolPolicy, can_call_tool}
use llm_router.Mcp.Hub.{Server, Result, ok, err, Tool, tag_tool, server, list_all_tools}
use llm_router.Mcp.Proxy.{Proxy}
use llm_router.Mcp.Listing.{list_tools, allowed_tools, tools_of, list_tools_from}

module _ {W : Type 0} where
  tools_of_allowed :
      (policy : Option ToolPolicy) (name : String) (r : Result (List Tool) × W) {t : Tool}
      → Memᴰ t (tools_of policy name r).0
      → can_call_tool policy t.server t.name ≡ true
  tools_of_allowed policy name (ok ts, w) m =
      (mem-select (λ t. can_call_tool policy t.server t.name) (map (tag_tool name) ts) m).1
  tools_of_allowed policy name (err e, w) m = elim m [ ]

  list_tools_from_allowed :
      (policy : Option ToolPolicy) (name : String) (s : Result (Server W)) (w : W) {t : Tool}
      → Memᴰ t (list_tools_from policy name s w).0
      → can_call_tool policy t.server t.name ≡ true
  list_tools_from_allowed policy name (ok s) w m = tools_of_allowed policy name (s.list_tools w) m
  list_tools_from_allowed policy name (err e) w m = elim m [ ]

  -- Every tool that is listed, of all servers or of one, is one that the key may call.
  pub list_tools_allowed :
      (p : Proxy W) (filter : String) (policy : Option ToolPolicy) (w : W) {t : Tool}
      → Memᴰ t (list_tools p filter policy w).0
      → can_call_tool policy t.server t.name ≡ true
  unfolding list_tools
  list_tools_allowed p filter policy w {t} m = elim (Bool-cases (str_eq filter "")) [
    | inl e ↦
        (mem-select (λ t. can_call_tool policy t.server t.name) (list_all_tools p.hub w).0
          (subst
            (λ b.
              Memᴰ t
                (if b
                  then (let (all, w') = list_all_tools p.hub w in (allowed_tools policy all, w'))
                  else list_tools_from policy filter (server p.hub filter) w).0)
            e m)).1
    | inr n ↦ list_tools_from_allowed policy filter (server p.hub filter) w (
        subst
          (λ b.
            Memᴰ t
              (if b
                then (let (all, w') = list_all_tools p.hub w in (allowed_tools policy all, w'))
                else list_tools_from policy filter (server p.hub filter) w).0)
          n m)
  ]
