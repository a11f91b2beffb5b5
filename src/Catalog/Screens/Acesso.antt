-- ===== src/Catalog/Screens/Acesso.antt =====
-- apps/web/src/lib/screen-catalog.ts: the screens whose path starts with `acesso`.
use bighead.Common.{List, [], ◌∷◌, none, some}
use bighead.Catalog.{ScreenDefinition, metric, t01, t02, t03, t04, t05, accent, acesso, risk}

abbrev pub acesso_screens : List ScreenDefinition
acesso_screens =
    record {
      code = t01;
      title = "Login";
      slug = "acesso" ∷ "login" ∷ [];
      area = acesso;
      part = "Identidade";
      summary = "Entrada por email, senha, magic link ou provedor com respostas anti-enumeracao.";
      states = "default" ∷ "loading" ∷ "invalid_credentials" ∷ "magic_link_sent" ∷ [];
      endpoints = "POST /v1/auth/login" ∷ [];
      metrics =
          metric "Tentativas bloqueadas" "3" none
          ∷ metric "Provedores ativos" "2" (some accent)
          ∷ [];
      checklist =
          "Nao revela existencia do email" ∷ "Acesso por teclado" ∷ "Recuperacao acessivel" ∷ [];
    }
    ∷ record {
      code = t02;
      title = "Recuperacao e redefinicao";
      slug = "acesso" ∷ "recuperacao" ∷ [];
      area = acesso;
      part = "Identidade";
      summary =
          "Fluxo de recuperar acesso, validar token e redefinir credenciais com revogacao de sessoes.";
      states = "request_link" ∷ "token_expired" ∷ "success" ∷ [];
      endpoints = "POST /v1/auth/recovery" ∷ "POST /v1/auth/reset" ∷ [];
      metrics = metric "Links ativos" "14" none ∷ metric "Expiracao" "15 min" (some risk) ∷ [];
      checklist = "Token unico" ∷ "Senha forte" ∷ "Revoga sessoes abertas" ∷ [];
    }
    ∷ record {
      code = t03;
      title = "Aceite de convite";
      slug = "acesso" ∷ "convite" ∷ [];
      area = acesso;
      part = "Organizacoes";
      summary = "Aceite ou recusa convites com validade, idempotencia e verificacao de email.";
      states = "pending" ∷ "accepted" ∷ "expired" ∷ "revoked" ∷ [];
      endpoints = "GET /v1/invitations/{token}" ∷ "POST /v1/invitations/{token}/accept" ∷ [];
      metrics = metric "Convites pendentes" "8" none ∷ metric "Papeis ofertados" "5" none ∷ [];
      checklist = "Confere email do convite" ∷ "Nao duplica membership" ∷ "Permite recusar" ∷ [];
    }
    ∷ record {
      code = t04;
      title = "Onboarding";
      slug = "acesso" ∷ "onboarding" ∷ [];
      area = acesso;
      part = "Organizacoes";
      summary = "Wizard de perfil, organizacao, objetivos e politica inicial com progresso salvo.";
      states = "step_profile" ∷ "step_org" ∷ "step_goals" ∷ "completed" ∷ [];
      endpoints = "POST /v1/onboarding" ∷ [];
      metrics = metric "Passos" "4" none ∷ metric "Conclusao media" "6 min" (some accent) ∷ [];
      checklist = "Salva progresso" ∷ "Retoma sessao expirada" ∷ "Cria owner atomico" ∷ [];
    }
    ∷ record {
      code = t05;
      title = "Seletor de organizacao";
      slug = "acesso" ∷ "organizacoes" ∷ [];
      area = acesso;
      part = "Organizacoes";
      summary = "Troca de tenant com limpeza de cache, subscriptions e contexto visual anterior.";
      states = "single_org" ∷ "multi_org" ∷ "org_removed" ∷ [];
      endpoints = "GET /v1/organizations" ∷ "POST /v1/context/switch" ∷ [];
      metrics =
          metric "Memberships" "4" none ∷ metric "Tenant atual" "Acme Growth" (some accent) ∷ [];
      checklist = "Invalida cache" ∷ "Fecha subscriptions" ∷ "Troca sem vazamento visual" ∷ [];
    }
    ∷ []
