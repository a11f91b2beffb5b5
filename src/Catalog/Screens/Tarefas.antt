-- ===== src/Catalog/Screens/Tarefas.antt =====
-- apps/web/src/lib/screen-catalog.ts: the screens whose path starts with `tarefas`.
use bighead.Common.{List, [], ◌∷◌, none, some}
use bighead.Catalog.{ScreenDefinition, metric, t14, t15, t16, t17, t18, t19, accent, operacao, risk}

abbrev pub tarefas_screens : List ScreenDefinition
tarefas_screens =
    record {
      code = t14;
      title = "Inbox de tarefas";
      slug = "tarefas" ∷ "inbox" ∷ [];
      area = operacao;
      part = "Tarefas";
      summary = "Tabela e kanban de tarefas com filtros, lotes, pagina por cursor e views salvas.";
      states = "table" ∷ "kanban" ∷ "loading_more" ∷ "empty" ∷ [];
      endpoints = "GET /v1/tasks" ∷ [];
      metrics =
          metric "Tarefas abertas" "24" none
          ∷ metric "Em revisao" "4" (some accent)
          ∷ metric "Atrasadas" "3" (some risk)
          ∷ [];
      checklist = "Views persistem" ∷ "Lotes autorizados" ∷ "Cursor preservado no retorno" ∷ [];
    }
    ∷ record {
      code = t15;
      title = "Criacao de tarefa";
      slug = "tarefas" ∷ "criar" ∷ [];
      area = operacao;
      part = "Tarefas";
      summary =
          "Formulario com objetivo, risco, agente, workflow, dependencias e SLA com roteamento explicado.";
      states = "editing" ∷ "validation_error" ∷ "success" ∷ [];
      endpoints = "POST /v1/tasks" ∷ "POST /v1/tasks/route-preview" ∷ [];
      metrics = metric "Templates" "9" none ∷ metric "Risco medio" "Moderado" (some accent) ∷ [];
      checklist = "Motivo do roteamento" ∷ "Bloqueia dependencia circular" ∷ "Suporta anexos" ∷ [];
    }
    ∷ record {
      code = t16;
      title = "Detalhe da tarefa";
      slug = "tarefas" ∷ "detalhe" ∷ [];
      area = operacao;
      part = "Tarefas";
      summary =
          "Visao completa da tarefa com resumo, timeline, artefatos, aprovacoes, execucoes e auditoria.";
      states = "healthy" ∷ "waiting_human" ∷ "conflict_409" ∷ "done" ∷ [];
      endpoints = "GET /v1/tasks/{taskId}" ∷ "POST /v1/tasks/{taskId}/transition" ∷ [];
      metrics =
          metric "Estado" "ready_for_review" (some accent)
          ∷ metric "SLA restante" "3h" (some risk)
          ∷ metric "Custo" "R$ 58" none
          ∷ [];
      checklist = "So destinos validos" ∷ "Preserva texto em 409" ∷ "Timeline auditavel" ∷ [];
    }
    ∷ record {
      code = t17;
      title = "Monitor de execucao";
      slug = "tarefas" ∷ "execucao" ∷ [];
      area = operacao;
      part = "Tarefas";
      summary = "Passos, tentativas, heartbeat, latencia, tokens, custo e logs mascarados por run.";
      states = "running" ∷ "retryable" ∷ "failed" ∷ "canceled" ∷ [];
      endpoints =
          "GET /v1/runs" ∷ "POST /v1/runs/{runId}/retry" ∷ "POST /v1/runs/{runId}/cancel" ∷ [];
      metrics =
          metric "Heartbeat" "22s" none
          ∷ metric "Tentativas" "2" (some risk)
          ∷ metric "Tokens" "18k" none
          ∷ [];
      checklist =
          "Mascara payload sensivel" ∷ "Cancela com confirmacao" ∷ "Retry cria nova tentativa" ∷ [];
    }
    ∷ record {
      code = t18;
      title = "Fila de falhas";
      slug = "tarefas" ∷ "falhas" ∷ [];
      area = operacao;
      part = "Tarefas";
      summary =
          "Agrupamento de falhas por modelo, skill, permissao, timeout e integracao com impacto.";
      states = "clustered" ∷ "retrying" ∷ "resolved" ∷ [];
      endpoints = "GET /v1/failures" ∷ "POST /v1/failures/{groupId}/retry" ∷ [];
      metrics = metric "Grupos" "6" (some risk) ∷ metric "Impactadas" "14" none ∷ [];
      checklist = "Mantem historico" ∷ "Prioriza por impacto" ∷ "Runbook visivel" ∷ [];
    }
    ∷ record {
      code = t19;
      title = "Calendario e SLA";
      slug = "tarefas" ∷ "sla" ∷ [];
      area = operacao;
      part = "Tarefas";
      summary =
          "Calendario operacional por data, responsavel e workflow destacando vencidas e em risco.";
      states = "calendar" ∷ "reschedule" ∷ "overdue" ∷ [];
      endpoints = "GET /v1/tasks/calendar" ∷ "POST /v1/tasks/{taskId}/reschedule" ∷ [];
      metrics = metric "Hoje" "12" none ∷ metric "Em risco" "5" (some risk) ∷ [];
      checklist =
          "Reagendamento com justificativa" ∷ "Filtro por owner" ∷ "Nao perde contexto da tarefa"
          ∷ [];
    }
    ∷ []
