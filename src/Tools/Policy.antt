-- ===== src/Tools/Policy.antt =====
-- What a read-only policy admits.
use authlane.Prelude.{
  ◌≡◌, refl, inl, inr, ◌∙◌, ap, String, Bool, true, false, not, List, [], ◌∷◌, ◌++◌, map, filter,
  append-nil, filter-append, All, All-filter_self, All-map, Bool-cases, arith,
}
use authlane.Tools.Safety.{ToolDefinition, ToolAccessPolicy, is_tool_allowed}
use authlane.Tools.Merge.{
  DiscoveredProviderTool, is_declared, unreviewed, insert, sort_by_name, additions,
  merge_provider_tools,
}

-- Whether a connection under the read-only policy is offered the tool.
abbrev pub is_offered : ToolDefinition → Bool
is_offered tool = is_tool_allowed tool.annotations ToolAccessPolicy.read_only

insert-All :
    (P : ToolDefinition → Type 0) (before : String → String → Bool) (tool : ToolDefinition)
    (tools : List ToolDefinition)
    → P tool
    → All P tools
    → All P (insert before tool tools)
insert-All P before tool [] p h = (p, tt)
insert-All P before tool (t ∷ ts) p h = elim (Bool-cases (before t.name tool.name)) [
  | inl e ↦ rw e (h.0, insert-All P before tool ts p h.1)
  | inr e ↦ rw e (p, h)
]

sort_by_name-All :
    (P : ToolDefinition → Type 0) (before : String → String → Bool) (tools : List ToolDefinition)
    → All P tools
    → All P (sort_by_name before tools)
sort_by_name-All P before [] h = tt
sort_by_name-All P before (t ∷ ts) h =
    insert-All P before t (sort_by_name before ts) h.0 (sort_by_name-All P before ts h.1)

map-unreviewed :
    (declared : List ToolDefinition) (prefixes : List String) (tools : List DiscoveredProviderTool)
    → All (λ t. not (is_declared declared prefixes t.name) ≡ true) tools
    → All
        (λ t. (is_offered t ≡ false) × (is_declared declared prefixes t.name ≡ false))
        (map unreviewed tools)
unfolding is_tool_allowed
map-unreviewed declared prefixes [] h = tt
map-unreviewed declared prefixes (t ∷ ts) h =
    ((refl, ground (arith, h.0)), map-unreviewed declared prefixes ts h.1)

additions-unoffered :
    (before : String → String → Bool) (declared : List ToolDefinition)
    (discovered : List DiscoveredProviderTool) (prefixes : List String)
    → All
        (λ t. (is_offered t ≡ false) × (is_declared declared prefixes t.name ≡ false))
        (additions before declared discovered prefixes)
unfolding additions
additions-unoffered before declared discovered prefixes =
    sort_by_name-All (λ t. (is_offered t ≡ false) × (is_declared declared prefixes t.name ≡ false))
      before _
      (map-unreviewed declared prefixes
        (filter (λ tool. not (is_declared declared prefixes tool.name)) discovered)
        (All-filter_self (λ tool. not (is_declared declared prefixes tool.name)) discovered))

filter-none :
    (tools : List ToolDefinition)
    → All (λ t. is_offered t ≡ false) tools
    → filter is_offered tools ≡ []
filter-none [] h = refl
filter-none (t ∷ ts) h = ground (arith, filter-none ts h.1)

-- What a provider's own server offers changes nothing for a connection under the read-only policy:
-- it is offered the tools of the contract that it was offered without, in the same order.
pub merge_provider_tools-read_only :
    (before : String → String → Bool) (declared : List ToolDefinition)
    (discovered : List DiscoveredProviderTool) (prefixes : List String)
    → filter
        (λ t. is_tool_allowed t.annotations ToolAccessPolicy.read_only)
        (merge_provider_tools before declared discovered prefixes)
      ≡ filter (λ t. is_tool_allowed t.annotations ToolAccessPolicy.read_only) declared
unfolding merge_provider_tools
merge_provider_tools-read_only before declared discovered prefixes =
    let added = additions before declared discovered prefixes in
    let unoffered =
      All-map (λ t. (is_offered t ≡ false) × (is_declared declared prefixes t.name ≡ false))
        (λ t. is_offered t ≡ false) (λ t h. h.0) added
        (additions-unoffered before declared discovered prefixes) in
    filter-append is_offered declared added
    ∙ ap (λ ts. filter is_offered declared ++ ts) (filter-none added unoffered)
    ∙ append-nil (filter is_offered declared)
