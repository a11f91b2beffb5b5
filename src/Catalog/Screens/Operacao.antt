-- ===== src/Catalog/Screens/Operacao.antt =====
-- apps/web/src/lib/screen-catalog.ts: the screens whose path starts with `operacao`.
use bighead.Common.{List, [], ◌∷◌, none, some}
use bighead.Catalog.{ScreenDefinition, metric, t06, t07, t08, t09, accent, operacao, risk}

abbrev pub operacao_screens : List ScreenDefinition
operacao_screens =
    record {
      code = t06;
      title = "Home operacional";
      slug = "operacao" ∷ "home" ∷ [];
      area = operacao;
      part = "Produtividade";
      summary = "Resumo de tarefas, SLA, aprovacoes, falhas, custos e resultados com drill-down.";
      states = "full" ∷ "partial" ∷ "empty" ∷ "permission_denied" ∷ [];
      endpoints = "GET /v1/analytics/summary" ∷ "GET /v1/dashboard/home" ∷ [];
      metrics =
          metric "SLA em risco" "6" (some risk)
          ∷ metric "Aprovacoes abertas" "7" (some accent)
          ∷ metric "Custo hoje" "R$ 184" none
          ∷ [];
      checklist =
          "Drill-down preserva filtros" ∷ "Mostra freshness" ∷ "Agrupa falhas por impacto" ∷ [];
    }
    ∷ record {
      code = t07;
      title = "Busca global e command palette";
      slug = "operacao" ∷ "busca-global" ∷ [];
      area = operacao;
      part = "Produtividade";
      summary = "Busca unificada por salas, tarefas, leads, conhecimento e atalhos operacionais.";
      states = "idle" ∷ "results" ∷ "empty" ∷ "resource_removed" ∷ [];
      endpoints = "POST /v1/search/global" ∷ [];
      metrics = metric "Atalhos" "12" none ∷ metric "Escopo" "Tenant atual" (some accent) ∷ [];
      checklist = "Abre por teclado" ∷ "Nao mostra recurso sem acesso" ∷ "Agrupa por tipo" ∷ [];
    }
    ∷ record {
      code = t08;
      title = "Notificacoes";
      slug = "operacao" ∷ "notificacoes" ∷ [];
      area = operacao;
      part = "Produtividade";
      summary =
          "Central de mencoes, atribuicoes, aprovacoes, SLA e falhas com preferencias por evento.";
      states = "grouped" ∷ "unread" ∷ "empty" ∷ "removed_target" ∷ [];
      endpoints = "GET /v1/notifications" ∷ "PATCH /v1/notifications/preferences" ∷ [];
      metrics = metric "Nao lidas" "11" (some risk) ∷ metric "Canais ativos" "3" none ∷ [];
      checklist = "Agrupamento coerente" ∷ "Marca em lote" ∷ "Abre contexto relacionado" ∷ [];
    }
    ∷ record {
      code = t09;
      title = "Perfil e sessoes";
      slug = "operacao" ∷ "perfil" ∷ [];
      area = operacao;
      part = "Produtividade";
      summary =
          "Preferencias pessoais, acessibilidade, timezone, idioma e gestao de sessoes ativas.";
      states = "profile" ∷ "sessions" ∷ "save_success" ∷ [];
      endpoints = "GET /v1/profile" ∷ "PATCH /v1/preferences" ∷ "GET /v1/sessions" ∷ [];
      metrics = metric "Sessoes ativas" "3" none ∷ metric "Tema" "Aurora light" (some accent) ∷ [];
      checklist =
          "Persistencia sem flash" ∷ "Encerrar dispositivo" ∷ "Preferencias por tenant" ∷ [];
    }
    ∷ []
