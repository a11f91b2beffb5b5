-- ===== src/Catalog/Screens/Colaboracao.antt =====
-- apps/web/src/lib/screen-catalog.ts: the screens whose path starts with `colaboracao`.
use bighead.Common.{List, [], ◌∷◌, none, some}
use bighead.Catalog.{ScreenDefinition, metric, t10, t11, t12, t13, accent, operacao, risk}

abbrev pub colaboracao_screens : List ScreenDefinition
colaboracao_screens =
    record {
      code = t10;
      title = "Lista de salas";
      slug = "colaboracao" ∷ "salas" ∷ [];
      area = operacao;
      part = "Colaboracao";
      summary =
          "Inbox de salas com favoritas, recentes, privadas, arquivadas e contadores de nao lidas.";
      states = "list" ∷ "favorited" ∷ "empty" ∷ "private_filtered" ∷ [];
      endpoints = "GET /v1/rooms" ∷ "POST /v1/rooms" ∷ [];
      metrics = metric "Salas ativas" "18" none ∷ metric "Nao lidas" "5" (some risk) ∷ [];
      checklist =
          "Filtro por visibilidade" ∷ "Favoritos persistem" ∷ "Nao expoe salas privadas" ∷ [];
    }
    ∷ record {
      code = t11;
      title = "Sala conversacional";
      slug = "colaboracao" ∷ "sala" ∷ [];
      area = operacao;
      part = "Colaboracao";
      summary =
          "Timeline de mensagens humanas e de agentes, threads, mencoes, anexos e acao de virar tarefa.";
      states = "realtime" ∷ "slow_loading" ∷ "upload_failed" ∷ "offline" ∷ [];
      endpoints =
          "GET /v1/rooms/{roomId}/messages" ∷ "POST /v1/messages" ∷ "POST /v1/messages/{id}/task"
          ∷ [];
      metrics =
          metric "Mensagens hoje" "156" none
          ∷ metric "Anexos" "24" none
          ∷ metric "Custo IA" "R$ 42" (some accent)
          ∷ [];
      checklist =
          "ID temporario reconcilia" ∷ "Mostra fonte/custo do agente" ∷ "Recupera upload falho"
          ∷ [];
    }
    ∷ record {
      code = t12;
      title = "Informacoes e membros da sala";
      slug = "colaboracao" ∷ "membros" ∷ [];
      area = operacao;
      part = "Colaboracao";
      summary = "Configuracao de privacidade, descricao e membros com regras para moderadores.";
      states = "public" ∷ "private" ∷ "last_admin_guard" ∷ [];
      endpoints = "PATCH /v1/rooms/{roomId}" ∷ "GET /v1/rooms/{roomId}/members" ∷ [];
      metrics = metric "Membros" "14" none ∷ metric "Moderadores" "2" (some accent) ∷ [];
      checklist =
          "Impede ultimo moderador" ∷ "Mostra papeis" ∷ "Ajuste de privacidade auditado" ∷ [];
    }
    ∷ record {
      code = t13;
      title = "Arquivos da sala";
      slug = "colaboracao" ∷ "arquivos" ∷ [];
      area = operacao;
      part = "Colaboracao";
      summary = "Gestao de anexos com preview, quarentena, metadados e URL assinada.";
      states = "ready" ∷ "quarantine" ∷ "uploading" ∷ "expired_link" ∷ [];
      endpoints = "GET /v1/rooms/{roomId}/files" ∷ "POST /v1/uploads/sign" ∷ [];
      metrics = metric "Arquivos" "63" none ∷ metric "Quarentena" "2" (some risk) ∷ [];
      checklist = "Preview seguro" ∷ "Progresso/cancelamento" ∷ "Quarentena bloqueia abertura" ∷ [];
    }
    ∷ []
