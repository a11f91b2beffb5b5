-- ===== src/Catalog/Navigation.antt =====
-- apps/web/src/components/shell/workspace-navigation-config.ts: the menus of the workspace.
use Prim.Native.String
use bighead.Catalog.{
  ScreenDefinition, Area, acesso, operacao, governanca, automacao, conhecimento, comercial,
  aprendizado, administracao,
}
use bighead.Catalog.Screens.{definitions}
use bighead.Catalog.Lookup.{join, same_area, area_order}
pub mod Coverage
use bighead.Common.{
  has, ◌+◌, ◌-◌, String, Bool, true, false, not, ◌&&◌, Option, none, some, List, [], ◌∷◌, ◌++◌, map,
  if◌then◌else◌, or_empty, filter, ◌==◌,
}

pub data ShellIcon : Type 0 where
  home messages tasks plus approvals leads pipeline : ShellIcon

pub record ShellRoute : Type 0 where
  pub label : String
  pub href : String
  pub icon : Option ShellIcon

pub record ShellGroup : Type 0 where
  pub label : String
  pub routes : List ShellRoute

abbrev pub route : String → String → ShellIcon → ShellRoute
route label href icon = record { label = label; href = href; icon = some icon }

abbrev pub link : String → String → ShellRoute
link label href = record { label = label; href = href; icon = none }

abbrev pub group : String → List ShellRoute → ShellGroup
group label routes = record { label = label; routes = routes }

abbrev pub primary_navigation : List ShellGroup
primary_navigation =
    group "Visao geral" (route "Inicio" "/operacao/home" home ∷ [])
    ∷ group "Conversas" (route "Salas" "/colaboracao/salas" messages ∷ [])
    ∷ group "Trabalho" (
        route "Tarefas" "/tarefas/inbox" tasks
        ∷ route "Criar tarefa" "/tarefas/criar" plus
        ∷ route "Aprovacoes" "/governanca/aprovacoes" approvals
        ∷ [])
    ∷ group "Comercial" (
        route "Leads" "/comercial/leads" leads
        ∷ route "Pipeline" "/comercial/pipeline" pipeline
        ∷ [])
    ∷ []

-- The paths of a menu: `flatMap((group) => group.routes.map((route) => route.href))`
abbrev pub hrefs : List ShellGroup → List String
hrefs [] = []
hrefs (g ∷ gs) = map (λ r. r.href) g.routes ++ hrefs gs

abbrev pub primary_route_paths : List String
primary_route_paths = hrefs primary_navigation

abbrev pub workspace_excluded_route_paths : List String
workspace_excluded_route_paths = "/acesso/login" ∷ []

abbrev pub agent_route_labels : List (String × String)
agent_route_labels =
    ("/automacao/agentes", "Painel de Agentes")
    ∷ ("/automacao/agente-config", "Configuração do Agente")
    ∷ ("/automacao/prompts", "Biblioteca de Prompts")
    ∷ ("/automacao/workflows", "Lista de Workflows")
    ∷ ("/conhecimento/biblioteca", "Biblioteca de Conhecimento (RAG)")
    ∷ []

abbrev pub label_of : List (String × String) → String → Option String
label_of [] path = none
label_of ((p, label) ∷ ls) path =
    let rest = label_of ls path in if p == path then some label else rest

unfoldable pub is_agent_route : String → Bool
is_agent_route path = elim (label_of agent_route_labels path) [ none ↦ false | some l ↦ true ]

unfoldable pub path_of : ScreenDefinition → String
unfolding join
path_of screen = String.◌++◌ "/" (join screen.slug)

unfoldable pub later_paths : List String → List String
later_paths paths =
    filter (λ p. not (has primary_route_paths p) && not (has workspace_excluded_route_paths p))
      paths

unfoldable pub productize_later_route_paths : List String
unfolding later_paths path_of
productize_later_route_paths = later_paths (map path_of definitions)

unfoldable pub agent_link : String → ShellRoute
agent_link href = link (or_empty (label_of agent_route_labels href)) href

abbrev pub area_label : Area → String
area_label acesso = "Conta"
area_label operacao = "Preferencias"
area_label governanca = "Governanca"
area_label automacao = "Automacao"
area_label conhecimento = "Conhecimento"
area_label comercial = "Crescimento"
area_label aprendizado = "Analises"
area_label administracao = "Administracao"

-- A group with no route is left out.
abbrev pub shown : String → List ShellRoute → List ShellGroup
shown label [] = []
shown label (r ∷ rs) = group label (r ∷ rs) ∷ []

module _ (is_later : String → Bool) where
  unfoldable pub agent_routes : List ScreenDefinition → List ShellRoute
  unfolding path_of agent_link is_agent_route
  agent_routes ds = map agent_link (filter (λ p. is_agent_route p && is_later p) (map path_of ds))

  unfoldable pub area_routes : List ScreenDefinition → Area → List ShellRoute
  unfolding path_of is_agent_route
  area_routes ds area =
      filter (λ r. is_later r.href && not (is_agent_route r.href))
        (map (λ s. link s.title (path_of s)) (filter (λ s. same_area s.area area) ds))

  unfoldable pub base_groups : List ScreenDefinition → List Area → List ShellGroup
  unfolding area_routes
  base_groups ds [] = []
  base_groups ds (area ∷ areas) =
      shown (area_label area) (area_routes ds area) ++ base_groups ds areas

unfoldable pub build_more_navigation : List ScreenDefinition → List ShellGroup
unfolding agent_routes base_groups productize_later_route_paths
build_more_navigation ds =
    let is_later = has productize_later_route_paths in
    shown "Agentes" (agent_routes is_later ds) ++ base_groups is_later ds area_order
