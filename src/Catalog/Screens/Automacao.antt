-- ===== src/Catalog/Screens/Automacao.antt =====
-- apps/web/src/lib/screen-catalog.ts: the screens whose path starts with `automacao`.
use bighead.Common.{List, [], ◌∷◌, none, some}
use bighead.Catalog.{
  ScreenDefinition, metric, t25, t26, t27, t28, t29, t30, t31, t32, t33, t34, accent, automacao,
  risk,
}

abbrev pub automacao_screens : List ScreenDefinition
automacao_screens =
    record {
      code = t25;
      title = "Catalogo de agentes";
      slug = "automacao" ∷ "agentes" ∷ [];
      area = automacao;
      part = "Agentes";
      summary = "Catalogo versionado de agentes com owner, modelo, confianca e metricas.";
      states = "active" ∷ "draft" ∷ "archived" ∷ [];
      endpoints = "GET /v1/agents" ∷ [];
      metrics = metric "Ativos" "9" none ∷ metric "Confianca media" "87%" (some accent) ∷ [];
      checklist = "Owner visivel" ∷ "Consumers rastreaveis" ∷ "Metricas por versao" ∷ [];
    }
    ∷ record {
      code = t26;
      title = "Configuracao do agente";
      slug = "automacao" ∷ "agente-config" ∷ [];
      area = automacao;
      part = "Agentes";
      summary = "Edicao de prompt, limites, modelos permitidos, skills e score de confianca.";
      states = "editing" ∷ "impact_analysis" ∷ "disabled" ∷ [];
      endpoints = "GET /v1/agents/{agentId}" ∷ "PATCH /v1/agents/{agentId}" ∷ [];
      metrics = metric "Skills ligadas" "7" none ∷ metric "Consumidores" "11" (some risk) ∷ [];
      checklist = "Mostra impacto" ∷ "Controla limites" ∷ "Versiona alteracoes" ∷ [];
    }
    ∷ record {
      code = t27;
      title = "Catalogo de skills";
      slug = "automacao" ∷ "skills" ∷ [];
      area = automacao;
      part = "Skills";
      summary = "Lista de skills com schema, risco, timeout, retries e necessidade de aprovacao.";
      states = "healthy" ∷ "degraded" ∷ "disabled" ∷ [];
      endpoints = "GET /v1/skills" ∷ [];
      metrics = metric "Skills" "22" none ∷ metric "Alto risco" "4" (some risk) ∷ [];
      checklist = "Schema visivel" ∷ "Risco textual" ∷ "Health por versao" ∷ [];
    }
    ∷ record {
      code = t28;
      title = "Configuracao/teste da skill";
      slug = "automacao" ∷ "skill-teste" ∷ [];
      area = automacao;
      part = "Skills";
      summary = "Editor de contrato e simulador de execucao com timeout, retries e mascaramento.";
      states = "ready" ∷ "timeout" ∷ "schema_error" ∷ [];
      endpoints = "GET /v1/skills/{skillId}" ∷ "POST /v1/skills/{skillId}/validate" ∷ [];
      metrics = metric "Timeout" "30s" (some risk) ∷ metric "Retries" "2" none ∷ [];
      checklist = "Mascara secrets" ∷ "Exibe schema" ∷ "Timeout reproduzivel" ∷ [];
    }
    ∷ record {
      code = t29;
      title = "Provedores e modelos";
      slug = "automacao" ∷ "modelos" ∷ [];
      area = automacao;
      part = "Modelos";
      summary = "Cadastro de providers, modelos, pricing, fallback e vigencia de preco.";
      states = "configured" ∷ "missing_pricing" ∷ "deprecated" ∷ [];
      endpoints = "GET /v1/models" ∷ "PATCH /v1/models/{modelId}" ∷ [];
      metrics = metric "Modelos" "14" none ∷ metric "Sem preco vigente" "1" (some risk) ∷ [];
      checklist = "Vigencia visivel" ∷ "Fallback documentado" ∷ "Preco nao some" ∷ [];
    }
    ∷ record {
      code = t30;
      title = "Biblioteca e versoes de prompts";
      slug = "automacao" ∷ "prompts" ∷ [];
      area = automacao;
      part = "Prompts";
      summary = "Biblioteca de prompts com diff, owner, changelog e status de publicacao.";
      states = "draft" ∷ "published" ∷ "rollback_preview" ∷ [];
      endpoints = "GET /v1/prompts" ∷ "GET /v1/prompts/{promptId}/versions" ∷ [];
      metrics = metric "Prompts" "31" none ∷ metric "Versao ativa" "v18" (some accent) ∷ [];
      checklist = "Diff legivel" ∷ "Owner claro" ∷ "Rollback previsivel" ∷ [];
    }
    ∷ record {
      code = t31;
      title = "Lista de workflows";
      slug = "automacao" ∷ "workflows" ∷ [];
      area = automacao;
      part = "Workflows";
      summary = "Catalogo de workflows com filtros por dominio, status e risco operacional.";
      states = "drafts" ∷ "published" ∷ "archived" ∷ [];
      endpoints = "GET /v1/workflows" ∷ [];
      metrics = metric "Publicados" "12" none ∷ metric "Rascunhos" "4" none ∷ [];
      checklist = "Status explicito" ∷ "Impacto por dominio" ∷ "Busca por owner" ∷ [];
    }
    ∷ record {
      code = t32;
      title = "Editor visual de workflow";
      slug = "automacao" ∷ "workflow-editor" ∷ [];
      area = automacao;
      part = "Workflows";
      summary = "Canvas visual para passos de agente, decisao, espera, revisao e aprovacao.";
      states = "editing" ∷ "invalid_graph" ∷ "simulation" ∷ [];
      endpoints =
          "GET /v1/workflows/{workflowId}" ∷ "POST /v1/workflows/{workflowId}/validate" ∷ [];
      metrics = metric "Nodes" "14" none ∷ metric "Warnings" "2" (some risk) ∷ [];
      checklist =
          "Impede publicar grafo invalido" ∷ "Mostra schema do node" ∷ "Conexoes claras" ∷ [];
    }
    ∷ record {
      code = t33;
      title = "Historico de versoes";
      slug = "automacao" ∷ "workflow-versoes" ∷ [];
      area = automacao;
      part = "Workflows";
      summary =
          "Historico de versoes, diff e rollback preservando execucoes antigas ligadas a origem.";
      states = "timeline" ∷ "diff" ∷ "rollback_confirmation" ∷ [];
      endpoints =
          "GET /v1/workflows/{workflowId}/versions" ∷ "POST /v1/workflows/{workflowId}/rollback"
          ∷ [];
      metrics = metric "Versoes" "8" none ∷ metric "Execucoes legadas" "23" none ∷ [];
      checklist = "Versao imutavel" ∷ "Rollback nao move runs antigos" ∷ "Diff compreensivel" ∷ [];
    }
    ∷ record {
      code = t34;
      title = "Biblioteca de playbooks";
      slug = "automacao" ∷ "playbooks" ∷ [];
      area = automacao;
      part = "Playbooks";
      summary = "Playbooks parametrizados para iniciar workflows com contexto, owners e templates.";
      states = "catalog" ∷ "instantiate" ∷ "missing_input" ∷ [];
      endpoints = "GET /v1/playbooks" ∷ "POST /v1/playbooks/{playbookId}/instantiate" ∷ [];
      metrics = metric "Playbooks" "17" none ∷ metric "Prontos para uso" "11" (some accent) ∷ [];
      checklist =
          "Parametros obrigatorios claros" ∷ "Mostra workflow de origem" ∷ "Instanciacao segura"
          ∷ [];
    }
    ∷ []
