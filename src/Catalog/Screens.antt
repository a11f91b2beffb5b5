-- ===== src/Catalog/Screens.antt =====
-- apps/web/src/lib/screen-catalog.ts: the catalogue, in the order of the source.
pub mod Acesso
mod Operacao
mod Colaboracao
mod Tarefas
mod Governanca
mod Automacao
mod Conhecimento
pub mod Comercial
mod Aprendizado
mod Administracao
use bighead.Common.{List, ◌++◌}
use bighead.Catalog.{ScreenDefinition}
use bighead.Catalog.Screens.Acesso.{acesso_screens}
use bighead.Catalog.Screens.Operacao.{operacao_screens}
use bighead.Catalog.Screens.Colaboracao.{colaboracao_screens}
use bighead.Catalog.Screens.Tarefas.{tarefas_screens}
use bighead.Catalog.Screens.Governanca.{governanca_screens}
use bighead.Catalog.Screens.Automacao.{automacao_screens}
use bighead.Catalog.Screens.Conhecimento.{conhecimento_screens}
use bighead.Catalog.Screens.Comercial.{comercial_screens}
use bighead.Catalog.Screens.Aprendizado.{aprendizado_screens}
use bighead.Catalog.Screens.Administracao.{administracao_screens}

abbrev pub definitions : List ScreenDefinition
definitions =
    acesso_screens ++ operacao_screens ++ colaboracao_screens ++ tarefas_screens
    ++ governanca_screens ++ automacao_screens ++ conhecimento_screens ++ comercial_screens
    ++ aprendizado_screens ++ administracao_screens
