-- ===== src/Catalog/Screens/Conhecimento.antt =====
-- apps/web/src/lib/screen-catalog.ts: the screens whose path starts with `conhecimento`.
use bighead.Common.{List, [], ◌∷◌, none, some}
use bighead.Catalog.{ScreenDefinition, metric, t35, t36, t37, t38, accent, conhecimento, risk}

abbrev pub conhecimento_screens : List ScreenDefinition
conhecimento_screens =
    record {
      code = t35;
      title = "Biblioteca de conhecimento";
      slug = "conhecimento" ∷ "biblioteca" ∷ [];
      area = conhecimento;
      part = "Conhecimento";
      summary =
          "Catalogo de documentos com status de ingestao, classificacao, owner e ultima revisao.";
      states = "ready" ∷ "processing" ∷ "failed" ∷ "empty" ∷ [];
      endpoints = "GET /v1/knowledge/documents" ∷ [];
      metrics = metric "Documentos" "142" none ∷ metric "Falhas" "3" (some risk) ∷ [];
      checklist = "Filtra por tenant" ∷ "Status visivel" ∷ "Revisao rastreavel" ∷ [];
    }
    ∷ record {
      code = t36;
      title = "Documento e ingestao";
      slug = "conhecimento" ∷ "ingestao" ∷ [];
      area = conhecimento;
      part = "Conhecimento";
      summary =
          "Upload de documento, status por chunk, erros de parse e reprocessamento assistido.";
      states = "uploading" ∷ "chunk_errors" ∷ "reprocessing" ∷ [];
      endpoints = "POST /v1/knowledge/documents" ∷ "GET /v1/knowledge/documents/{id}/chunks" ∷ [];
      metrics = metric "Chunks" "38" none ∷ metric "Erros" "2" (some risk) ∷ [];
      checklist = "Mostra job lifecycle" ∷ "Erros por chunk" ∷ "Retry seguro" ∷ [];
    }
    ∷ record {
      code = t37;
      title = "Memoria operacional";
      slug = "conhecimento" ∷ "memoria" ∷ [];
      area = conhecimento;
      part = "Memoria";
      summary = "Itens de memoria com fato, inferencia ou decisao, validade e contestacao.";
      states = "approved" ∷ "contested" ∷ "expired" ∷ [];
      endpoints = "GET /v1/memory/items" ∷ "POST /v1/memory/items/{id}/contest" ∷ [];
      metrics = metric "Itens ativos" "89" none ∷ metric "Contestados" "6" (some risk) ∷ [];
      checklist = "Mostra fonte" ∷ "Validade explicita" ∷ "Contestacao auditavel" ∷ [];
    }
    ∷ record {
      code = t38;
      title = "Busca semantica/debug RAG";
      slug = "conhecimento" ∷ "busca-semantica" ∷ [];
      area = conhecimento;
      part = "Memoria";
      summary =
          "Busca semantica com score, filtros, fonte, confidencialidade e debug de recuperação.";
      states = "results" ∷ "filtered" ∷ "cross_tenant_blocked" ∷ [];
      endpoints = "POST /v1/search/semantic" ∷ [];
      metrics = metric "Resultados" "12" none ∷ metric "Score topo" "0.91" (some accent) ∷ [];
      checklist = "Nao expoe outro tenant" ∷ "Mostra score" ∷ "Fonte sempre clicavel" ∷ [];
    }
    ∷ []
