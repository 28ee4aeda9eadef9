-- ===== src/Orchestrator/Engine/Catalog.antt =====
-- The tools that a model is told of: services/orchestrator/internal/engine/catalog.go. Names are made
-- and schemas checked by text operations that are given: `slugged` is the base of a name, `numbered`
-- the base with a number.
pub mod Named
use cratos_ai.Prelude.{
  ℕ, ◌+◌, ltb, ◌==◌, Bool, true, false, not, ◌&&◌, ◌||◌, Option, none, some, List, [], ◌∷◌, ◌++◌,
  String, str_eq, if◌then◌else◌, is_some, length, sort_by, zero, suc,
}
use cratos_ai.Orchestrator.Model.{Target, Device}
use cratos_ai.Orchestrator.Engine.Running.{find_target}

-- mcpv1.Tool
pub record McpTool : Type 0 where
  pub integration_id : String
  pub integration : String
  pub name : String
  pub title : String
  pub input_schema : String
  pub read_only : Bool

pub record CatalogWorld : Type 0 where
  pub slugged : String → String → String
  pub numbered : String → ℕ → String
  pub is_usable : String → Bool
  pub describe : McpTool → String
  pub device_description : List Device → String
  pub device_schema : List Device → String
  pub builtin_description : String → String
  pub builtin_schema : String → String

abbrev pub max_task_mcp_tools : ℕ
max_task_mcp_tools = 100

-- catalog: what each name runs, in the order in which the tools are listed.
abbrev pub Catalog : Type 0
Catalog = List (String × Target)

-- catalog.add
unfoldable pub add_tool : String → String → String → Target → Catalog → Catalog
add_tool name description parameters t c =
    c ++ (name, record t { description = description; parameters = parameters }) ∷ []

abbrev pub is_taken : String → Catalog → Bool
is_taken name c = is_some (find_target name c)

abbrev pub builtin : String → Target
builtin kind = record {
  kind = kind;
  integration_id = "";
  integration = "";
  tool = "";
  title = "";
  read_only = false;
  description = "";
  parameters = "";
}

module _ (w : CatalogWorld) where
  -- The i-th name that uniqueName tries, from 1.
  abbrev pub candidate : String → ℕ → String
  candidate base i = if i == 1 then base else w.numbered base i

  -- The loop of uniqueName, with so many names left to try.
  unfoldable pub unique_from : ℕ → String → ℕ → Catalog → String
  unique_from zero base i used = candidate base i
  unique_from (suc fuel) base i used =
      let next = unique_from fuel base (suc i) used in
      if is_taken (candidate base i) used then next else candidate base i

  -- uniqueName: one more name than are used is enough.
  unfoldable pub unique_name : String → String → Catalog → String
  unique_name integration tool used =
      unique_from (suc (length used)) (w.slugged integration tool) 1 used

  abbrev pub add_builtin : String → Catalog → Catalog
  add_builtin name =
      add_tool name (w.builtin_description name) (w.builtin_schema name) (builtin name)

  abbrev pub voice_builtins : Bool → Catalog → Catalog
  voice_builtins false c = c
  voice_builtins true c =
      add_builtin "cancel_action" (add_builtin "confirm_action" (add_builtin "start_task" c))

  abbrev pub device_builtin : List Device → Catalog → Catalog
  device_builtin [] c = c
  device_builtin (d ∷ ds) c =
      add_tool "run_on_computer" (w.device_description (d ∷ ds)) (w.device_schema (d ∷ ds))
        (builtin "run_on_computer") c

  -- builtins
  unfoldable pub builtins : Bool → List Device → Catalog
  builtins voice devices =
      device_builtin devices
        (voice_builtins voice (add_builtin "remember" (add_builtin "recall_memory" [])))

  -- The order of integrations: read-only tools first, otherwise as they come.
  abbrev pub comes_first : McpTool → McpTool → Bool
  comes_first x y = not (y.read_only && not x.read_only)

  abbrev pub mcp_target : McpTool → Target
  mcp_target t = record {
    kind = "mcp";
    integration_id = t.integration_id;
    integration = t.integration;
    tool = t.name;
    title = if str_eq t.title "" then t.name else t.title;
    read_only = t.read_only;
    description = "";
    parameters = "";
  }

  abbrev pub add_mcp : McpTool → Catalog → Catalog
  add_mcp t c =
      add_tool (unique_name t.integration t.name c) (w.describe t) t.input_schema (mcp_target t) c

  -- The loop of integrations, with so many tools left to add.
  unfoldable pub add_some : ℕ → List McpTool → Catalog → Catalog
  add_some limit [] c = c
  add_some zero (t ∷ ts) c = c
  add_some (suc limit) (t ∷ ts) c =
      let skipped = add_some (suc limit) ts c in
      let added = add_some limit ts (add_mcp t c) in
      if w.is_usable t.input_schema then added else skipped

  -- integrations
  unfoldable pub integrations : List McpTool → ℕ → Catalog → Catalog
  integrations tools limit c = add_some limit (sort_by comes_first tools) c

  abbrev pub with_listed : ℕ → Catalog → Option (List McpTool) → Catalog
  with_listed limit c none = c
  with_listed limit c (some tools) = integrations tools limit c

  -- buildCatalog, of the user's devices and of the tools that the router lists, if it answers.
  unfoldable pub build_catalog : Bool → ℕ → List Device → Option (List McpTool) → Catalog
  build_catalog voice max_voice_tools devices listed =
      with_listed (if voice then max_voice_tools else max_task_mcp_tools) (builtins voice devices)
        listed
