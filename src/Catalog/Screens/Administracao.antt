-- ===== src/Catalog/Screens/Administracao.antt =====
-- apps/web/src/lib/screen-catalog.ts: the screens whose path starts with `administracao`.
use bighead.Common.{List, [], ◌∷◌, none, some}
use bighead.Catalog.{ScreenDefinition, metric, t53, t54, t55, t56, accent, administracao, risk}

abbrev pub administracao_screens : List ScreenDefinition
administracao_screens =
    record {
      code = t53;
      title = "Organizacao e branding";
      slug = "administracao" ∷ "organizacao" ∷ [];
      area = administracao;
      part = "Admin";
      summary =
          "Configuracoes da organizacao, branding, dominio, timezone e defaults operacionais.";
      states = "configured" ∷ "preview" ∷ "unsaved" ∷ [];
      endpoints =
          "GET /v1/organizations/{organizationId}" ∷ "PATCH /v1/organizations/{organizationId}"
          ∷ [];
      metrics = metric "Brand kit" "Ativo" (some accent) ∷ metric "Dominios" "2" none ∷ [];
      checklist =
          "Preview do branding" ∷ "Defaults por tenant" ∷ "Nao afeta portal externo sem revisao"
          ∷ [];
    }
    ∷ record {
      code = t54;
      title = "Membros, convites e papeis";
      slug = "administracao" ∷ "membros" ∷ [];
      area = administracao;
      part = "Admin";
      summary = "Gestao de membros, convites, papeis e bloqueio do ultimo owner.";
      states = "members" ∷ "invite" ∷ "last_owner_guard" ∷ [];
      endpoints =
          "GET /v1/memberships" ∷ "POST /v1/invitations" ∷ "PATCH /v1/memberships/{id}" ∷ [];
      metrics = metric "Membros" "42" none ∷ metric "Owners" "2" (some accent) ∷ [];
      checklist = "Nao remove ultimo owner" ∷ "Convite idempotente" ∷ "Papeis claros" ∷ [];
    }
    ∷ record {
      code = t55;
      title = "Integracoes e webhooks";
      slug = "administracao" ∷ "integracoes" ∷ [];
      area = administracao;
      part = "Admin";
      summary = "Catalogo de integracoes, webhooks, deliveries e secrets revelados apenas uma vez.";
      states = "connected" ∷ "secret_once" ∷ "delivery_failed" ∷ [];
      endpoints = "GET /v1/integrations" ∷ "POST /v1/webhooks/test" ∷ [];
      metrics = metric "Integracoes" "7" none ∷ metric "Falhas de delivery" "3" (some risk) ∷ [];
      checklist = "Secret aparece uma vez" ∷ "Historico de deliveries" ∷ "Teste seguro" ∷ [];
    }
    ∷ record {
      code = t56;
      title = "Privacidade, retencao e auditoria";
      slug = "administracao" ∷ "privacidade-auditoria" ∷ [];
      area = administracao;
      part = "Compliance";
      summary =
          "LGPD, legal hold, exportacao, exclusao e auditoria append-only sem editar/excluir.";
      states = "request_open" ∷ "legal_hold" ∷ "audit_only" ∷ [];
      endpoints = "GET /v1/privacy/requests" ∷ "GET /v1/audit/events" ∷ [];
      metrics =
          metric "Requests abertas" "4" (some risk)
          ∷ metric "Eventos de auditoria" "12.8k" none
          ∷ [];
      checklist =
          "Sem editar/excluir auditoria" ∷ "Impacto e escopo claros" ∷ "Status de job LGPD" ∷ [];
    }
    ∷ []
