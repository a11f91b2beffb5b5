-- ===== src/Catalog.antt =====
-- apps/web/src/lib/screen-catalog.ts: the screens of the workspace. The field `module` of a screen
-- is `part` here.
pub mod Screens
pub mod Lookup
pub mod Navigation
mod Tests
use bighead.Common.{String, Option, List}

pub data ScreenCode : Type 0 where
  t01 t02 t03 t04 t05 t06 t07 t08 t09 t10 t11 t12 t13 t14 t15 t16 t17 t18 t19 t20 t21 t22 t23 t24
        t25 t26 t27 t28 t29 t30 t31 t32 t33 t34 t35 t36 t37 t38 t39 t40 t41 t42 t43 t44 t45 t46 t47
        t48 t49 t50 t51 t52 t53 t54 t55 t56 :
      ScreenCode

pub data Area : Type 0 where
  acesso operacao governanca automacao conhecimento comercial aprendizado administracao : Area

pub data Tone : Type 0 where
  risk accent neutral : Tone

pub record Metric : Type 0 where
  pub label : String
  pub value : String
  pub tone : Option Tone

abbrev pub metric : String → String → Option Tone → Metric
metric l v t = record { label = l; value = v; tone = t }

pub record ScreenDefinition : Type 0 where
  pub code : ScreenCode
  pub title : String
  pub slug : List String
  pub area : Area
  pub part : String
  pub summary : String
  pub states : List String
  pub endpoints : List String
  pub metrics : List Metric
  pub checklist : List String
