-- ===== src/Catalog/Screens/Comercial.antt =====
-- apps/web/src/lib/screen-catalog.ts: the screens whose path starts with `comercial`.
use bighead.Common.{List, [], ◌∷◌, none, some}
use bighead.Catalog.{
  ScreenDefinition, metric, t39, t40, t41, t42, t43, t44, t45, accent, comercial, risk,
}

abbrev pub comercial_screens : List ScreenDefinition
comercial_screens =
    record {
      code = t39;
      title = "Contas e contatos";
      slug = "comercial" ∷ "contas-contatos" ∷ [];
      area = comercial;
      part = "CRM";
      summary = "Gestao de contas, contatos, importacao e deduplicacao com consentimento e origem.";
      states = "catalog" ∷ "import_review" ∷ "dedupe_preview" ∷ [];
      endpoints = "GET /v1/crm/accounts" ∷ "GET /v1/crm/contacts" ∷ "POST /v1/crm/imports" ∷ [];
      metrics = metric "Contas" "164" none ∷ metric "Duplicatas" "9" (some risk) ∷ [];
      checklist = "Preview de merge" ∷ "Base legal visivel" ∷ "Origem do dado clara" ∷ [];
    }
    ∷ record {
      code = t40;
      title = "Leads";
      slug = "comercial" ∷ "leads" ∷ [];
      area = comercial;
      part = "CRM";
      summary = "Fila de leads com sinais, score ICP, proxima acao e filtros por etapa e owner.";
      states = "scored" ∷ "unassigned" ∷ "empty" ∷ [];
      endpoints = "GET /v1/crm/leads" ∷ [];
      metrics = metric "Leads quentes" "18" (some accent) ∷ metric "Sem owner" "4" (some risk) ∷ [];
      checklist = "Score explicado" ∷ "Proxima acao visivel" ∷ "Filtra por etapa" ∷ [];
    }
    ∷ record {
      code = t41;
      title = "Detalhe do lead";
      slug = "comercial" ∷ "lead-detalhe" ∷ [];
      area = comercial;
      part = "CRM";
      summary = "Timeline, sinais, contexto, ICP, origem e atividades sugeridas por lead.";
      states = "active" ∷ "disqualified" ∷ "converted" ∷ [];
      endpoints = "GET /v1/crm/leads/{leadId}" ∷ [];
      metrics = metric "Score ICP" "82" (some accent) ∷ metric "Ultimo sinal" "Hoje" none ∷ [];
      checklist = "Origem preservada" ∷ "Timeline coerente" ∷ "Acao sugerida segura" ∷ [];
    }
    ∷ record {
      code = t42;
      title = "Pipeline e oportunidades";
      slug = "comercial" ∷ "pipeline" ∷ [];
      area = comercial;
      part = "CRM";
      summary = "Funil de oportunidades com forecast, ganho/perda e campos obrigatorios por etapa.";
      states = "board" ∷ "forecast" ∷ "stage_guard" ∷ [];
      endpoints = "GET /v1/crm/opportunities" ∷ "POST /v1/crm/opportunities/{id}/stage" ∷ [];
      metrics =
          metric "Pipeline" "R$ 1,2M" (some accent) ∷ metric "Em risco" "R$ 220k" (some risk) ∷ [];
      checklist =
          "Bloqueia campos faltantes" ∷ "Forecast por owner" ∷ "Ganhos/perdas auditados" ∷ [];
    }
    ∷ record {
      code = t43;
      title = "Campanhas";
      slug = "comercial" ∷ "campanhas" ∷ [];
      area = comercial;
      part = "Conteudo";
      summary = "Gestao de campanhas com objetivos, canais, publico, status e atribuicao futura.";
      states = "draft" ∷ "running" ∷ "paused" ∷ "completed" ∷ [];
      endpoints = "GET /v1/content/campaigns" ∷ [];
      metrics = metric "Ativas" "5" (some accent) ∷ metric "Atrasadas" "1" (some risk) ∷ [];
      checklist = "Objetivo claro" ∷ "Canal e publico definidos" ∷ "Status auditavel" ∷ [];
    }
    ∷ record {
      code = t44;
      title = "Estudio de conteudo";
      slug = "comercial" ∷ "conteudo" ∷ [];
      area = comercial;
      part = "Conteudo";
      summary = "Briefings, ativos, variantes, aprovacoes e metadados editoriais por conteudo.";
      states = "editing" ∷ "awaiting_approval" ∷ "changes_requested" ∷ [];
      endpoints = "GET /v1/content/assets" ∷ "POST /v1/content/assets" ∷ [];
      metrics = metric "Variantes" "8" none ∷ metric "Aguardando aprovacao" "3" (some risk) ∷ [];
      checklist = "Mostra brief" ∷ "Versiona variante" ∷ "Integra com aprovacao" ∷ [];
    }
    ∷ record {
      code = t45;
      title = "Calendario editorial/publicacoes";
      slug = "comercial" ∷ "publicacoes" ∷ [];
      area = comercial;
      part = "Conteudo";
      summary = "Calendario de publicacoes com agendamento, erro de provider e retry seguro.";
      states = "scheduled" ∷ "published" ∷ "provider_error" ∷ [];
      endpoints = "GET /v1/content/publications" ∷ "POST /v1/content/publications/{id}/retry" ∷ [];
      metrics = metric "Agendadas" "21" none ∷ metric "Falhas" "2" (some risk) ∷ [];
      checklist = "Preserva payload na falha" ∷ "Mostra canal" ∷ "Retry seguro" ∷ [];
    }
    ∷ []
