-- ===== src/Catalog/Tests.antt =====
-- The catalogue and the menus at concrete paths.
use bighead.Common.{has, true, false, ◌≡◌, some, [], ◌∷◌, none, ◌&&◌, ◌||◌}
use bighead.Catalog.{ScreenDefinition, t01, acesso, metric, accent}
use bighead.Catalog.Screens.{definitions}
use bighead.Catalog.Lookup.{join}
use bighead.Catalog.Navigation.{path_of, hrefs, build_more_navigation, primary_route_paths}
use bighead.Catalog.Navigation.Coverage.{menus_lem}

abbrev login : ScreenDefinition
login = record {
  code = t01;
  title = "Login";
  slug = "acesso" ∷ "login" ∷ [];
  area = acesso;
  part = "Identidade";
  summary = "Entrada por email, senha, magic link ou provedor com respostas anti-enumeracao.";
  states = "default" ∷ "loading" ∷ "invalid_credentials" ∷ "magic_link_sent" ∷ [];
  endpoints = "POST /v1/auth/login" ∷ [];
  metrics =
      metric "Tentativas bloqueadas" "3" none ∷ metric "Provedores ativos" "2" (some accent) ∷ [];
  checklist =
      "Nao revela existencia do email" ∷ "Acesso por teclado" ∷ "Recuperacao acessivel" ∷ [];
}

menus_lem_example :
    ((has primary_route_paths "/tarefas/inbox"
        || has (hrefs (build_more_navigation definitions)) "/tarefas/inbox")
      ≡ true)
    × ((has primary_route_paths "/tarefas/inbox"
          && has (hrefs (build_more_navigation definitions)) "/tarefas/inbox")
        ≡ false)
unfolding path_of join
menus_lem_example = menus_lem "/tarefas/inbox"
