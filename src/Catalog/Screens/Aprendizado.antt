-- ===== src/Catalog/Screens/Aprendizado.antt =====
-- apps/web/src/lib/screen-catalog.ts: the screens whose path starts with `aprendizado`.
use bighead.Common.{List, [], ◌∷◌, none, some}
use bighead.Catalog.{
  ScreenDefinition, metric, t46, t47, t48, t49, t50, t51, t52, accent, aprendizado, risk,
}

abbrev pub aprendizado_screens : List ScreenDefinition
aprendizado_screens =
    record {
      code = t46;
      title = "Lista de experimentos";
      slug = "aprendizado" ∷ "experimentos" ∷ [];
      area = aprendizado;
      part = "Experimentos";
      summary = "Catalogo de experimentos com hipotese, status, metrica e owner.";
      states = "draft" ∷ "running" ∷ "completed" ∷ [];
      endpoints = "GET /v1/experiments" ∷ [];
      metrics = metric "Rodando" "3" (some accent) ∷ metric "Concluidos" "14" none ∷ [];
      checklist = "Hipotese clara" ∷ "Owner visivel" ∷ "Status imutavel quando iniciado" ∷ [];
    }
    ∷ record {
      code = t47;
      title = "Configuracao e resultado do experimento";
      slug = "aprendizado" ∷ "experimento-detalhe" ∷ [];
      area = aprendizado;
      part = "Experimentos";
      summary = "Detalhe de experimento com variantes, janela, stop rule e resultado.";
      states = "configuring" ∷ "locked" ∷ "result" ∷ [];
      endpoints =
          "GET /v1/experiments/{experimentId}" ∷ "PATCH /v1/experiments/{experimentId}" ∷ [];
      metrics =
          metric "Variantes" "3" none ∷ metric "Metrica primaria" "SQL rate" (some accent) ∷ [];
      checklist =
          "Bloqueia campos imutaveis" ∷ "Explica janela" ∷ "Mostra conclusao e amostra" ∷ [];
    }
    ∷ record {
      code = t48;
      title = "Dashboard executivo";
      slug = "aprendizado" ∷ "dashboard-executivo" ∷ [];
      area = aprendizado;
      part = "Analytics";
      summary = "Visao executiva de operacao, receita influenciada, qualidade e custo.";
      states = "executive" ∷ "partial" ∷ "drilldown" ∷ [];
      endpoints = "GET /v1/analytics/summary" ∷ [];
      metrics =
          metric "Receita influenciada" "R$ 480k" (some accent)
          ∷ metric "Custo operacional" "R$ 31k" none
          ∷ [];
      checklist = "Fonte do KPI" ∷ "Periodo/timezone" ∷ "Drilldown ate registros" ∷ [];
    }
    ∷ record {
      code = t49;
      title = "Operacoes e SLA";
      slug = "aprendizado" ∷ "analytics-sla" ∷ [];
      area = aprendizado;
      part = "Analytics";
      summary = "Painel operacional com SLA, throughput, backlog e falhas por equipe.";
      states = "trend" ∷ "comparison" ∷ "breach" ∷ [];
      endpoints = "GET /v1/analytics/operations" ∷ [];
      metrics = metric "Throughput" "138/semana" none ∷ metric "Breaches" "4" (some risk) ∷ [];
      checklist = "Comparativo temporal" ∷ "Drilldown por equipe" ∷ "Freshness do dado" ∷ [];
    }
    ∷ record {
      code = t50;
      title = "Performance de agentes/skills";
      slug = "aprendizado" ∷ "analytics-agentes" ∷ [];
      area = aprendizado;
      part = "Analytics";
      summary = "Metricas de latencia, sucesso, custo e falha por agente, skill e modelo.";
      states = "leaderboard" ∷ "degraded" ∷ "cost_spike" ∷ [];
      endpoints = "GET /v1/analytics/agents" ∷ [];
      metrics =
          metric "Sucesso medio" "91%" (some accent)
          ∷ metric "Spikes de custo" "2" (some risk)
          ∷ [];
      checklist = "Filtra por provider" ∷ "Mostra custo por execucao" ∷ "Degradacao visivel" ∷ [];
    }
    ∷ record {
      code = t51;
      title = "Custos, budgets e quotas";
      slug = "aprendizado" ∷ "custos" ∷ [];
      area = aprendizado;
      part = "Analytics";
      summary = "Controle de budgets, quotas e consumo por tenant, equipe, agente e campanha.";
      states = "within_budget" ∷ "near_limit" ∷ "exceeded" ∷ [];
      endpoints = "GET /v1/analytics/costs" ∷ "GET /v1/budgets" ∷ [];
      metrics =
          metric "Budget do mes" "68%" (some accent)
          ∷ metric "Quotas em alerta" "3" (some risk)
          ∷ [];
      checklist = "Limites claros" ∷ "Tendencia por periodo" ∷ "Alertas compreensiveis" ∷ [];
    }
    ∷ record {
      code = t52;
      title = "Funil e atribuicao";
      slug = "aprendizado" ∷ "funil" ∷ [];
      area = aprendizado;
      part = "Analytics";
      summary =
          "Conversao de funil e atribuicao declarada ligando campanha, conteudo, lead e receita.";
      states = "multi_touch" ∷ "single_touch" ∷ "unknown_source" ∷ [];
      endpoints = "GET /v1/analytics/funnel" ∷ [];
      metrics =
          metric "SQL -> Won" "18%" none ∷ metric "Receita atribuida" "R$ 380k" (some accent) ∷ [];
      checklist = "Modelo declarado" ∷ "Fonte por KPI" ∷ "Drilldown por campanha" ∷ [];
    }
    ∷ []
