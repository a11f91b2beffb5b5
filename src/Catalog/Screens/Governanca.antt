-- ===== src/Catalog/Screens/Governanca.antt =====
-- apps/web/src/lib/screen-catalog.ts: the screens whose path starts with `governanca`.
use bighead.Common.{List, [], ◌∷◌, none, some}
use bighead.Catalog.{ScreenDefinition, metric, t20, t21, t22, t23, t24, accent, governanca, risk}

abbrev pub governanca_screens : List ScreenDefinition
governanca_screens =
    record {
      code = t20;
      title = "Inbox de aprovacoes";
      slug = "governanca" ∷ "aprovacoes" ∷ [];
      area = governanca;
      part = "Aprovacoes";
      summary = "Fila de aprovacoes por prazo, risco, cliente e solicitante com preview rapido.";
      states = "pending" ∷ "segregated" ∷ "empty" ∷ [];
      endpoints = "GET /v1/approvals" ∷ [];
      metrics = metric "Pendentes" "7" (some risk) ∷ metric "Externas" "2" none ∷ [];
      checklist = "Autoaprovacao bloqueada" ∷ "Preview rapido" ∷ "Ordena por risco e prazo" ∷ [];
    }
    ∷ record {
      code = t21;
      title = "Detalhe da aprovacao";
      slug = "governanca" ∷ "aprovacao-detalhe" ∷ [];
      area = governanca;
      part = "Aprovacoes";
      summary = "Comparacao de versoes, contexto, checklist, comentarios e decisao imutavel.";
      states = "approved" ∷ "rejected" ∷ "changes_requested" ∷ "concurrent_decision" ∷ [];
      endpoints =
          "GET /v1/approvals/{approvalId}" ∷ "POST /v1/approvals/{approvalId}/decision" ∷ [];
      metrics = metric "Rodada" "2" none ∷ metric "Risco" "Alto" (some risk) ∷ [];
      checklist = "Decisao imutavel" ∷ "Nova rodada apos changes" ∷ "Impacto visivel" ∷ [];
    }
    ∷ record {
      code = t22;
      title = "Scorecards Sentinel QA";
      slug = "governanca" ∷ "scorecards" ∷ [];
      area = governanca;
      part = "Qualidade";
      summary = "Scorecards de qualidade e criterios por entrega, canal e politica de risco.";
      states = "passing" ∷ "warning" ∷ "failing" ∷ [];
      endpoints = "GET /v1/approvals/{approvalId}/scorecard" ∷ [];
      metrics =
          metric "Score medio" "84/100" (some accent)
          ∷ metric "Falhas criticas" "1" (some risk)
          ∷ [];
      checklist = "Explica criterios" ∷ "Relaciona politicas" ∷ "Mostra tendencia por rodada" ∷ [];
    }
    ∷ record {
      code = t23;
      title = "Politicas de aprovacao";
      slug = "governanca" ∷ "politicas" ∷ [];
      area = governanca;
      part = "Qualidade";
      summary = "Configuracao de politicas com simulador por risco, tipo de acao e segregacao.";
      states = "draft" ∷ "published" ∷ "simulating" ∷ [];
      endpoints = "GET /v1/policies/approvals" ∷ "PATCH /v1/policies/approvals" ∷ [];
      metrics = metric "Politicas" "5" none ∷ metric "Cobertura" "92%" (some accent) ∷ [];
      checklist = "Simula impacto" ∷ "Bloqueia lacunas" ∷ "Explica segregacao" ∷ [];
    }
    ∷ record {
      code = t24;
      title = "Portal externo";
      slug = "governanca" ∷ "portal-externo" ∷ [];
      area = governanca;
      part = "Portal";
      summary = "Experiencia externa isolada para visualizar, comentar e decidir via token opaco.";
      states = "valid" ∷ "expired" ∷ "revoked" ∷ "used" ∷ [];
      endpoints = "GET /v1/portal/items/{token}" ∷ [];
      metrics = metric "Links ativos" "12" none ∷ metric "Uso maximo" "3" (some risk) ∷ [];
      checklist = "Nao revela shell" ∷ "Branding dedicado" ∷ "Token opaco e escopado" ∷ [];
    }
    ∷ []
