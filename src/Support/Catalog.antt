-- ===== src/Support/Catalog.antt =====
-- What src/support.rs and src/pg_imports.rs ask PostgreSQL's catalog, as a parameter.
use Prim.Native.String.{String}
use promscale_extension.Prelude.{Bool, Option, List}
use promscale_extension.Support.Nodes.{Oid}

pub data FuncDetailCode : Type 0 where
  func_detail_notfound func_detail_multiple func_detail_normal func_detail_procedure
        func_detail_aggregate func_detail_windowfunc func_detail_coercion :
      FuncDetailCode

-- The fields of `FuncDetail` that are read.
pub record FuncDetail : Type 0 where
  pub func_oid : Oid
  pub ret_type_oid : Oid
  pub code : FuncDetailCode

pub record Catalog : Type 0 where
  pub get_opname : Oid → Option String
  pub get_func_name : Oid → Option String
  pub is_utf8 : String → Bool
  -- `pg_sys::func_get_detail` on a qualified name and the types of the arguments.
  pub func_get_detail : List String → List Oid → FuncDetail
  pub type_is_array : Oid → Bool
  -- `none` where it raises an error.
  pub lookup_oper_name : List String → Oid → Oid → Option Oid
  pub get_opcode : Oid → Oid
  pub text_oid : Oid
  pub jsonb_oid : Oid
  pub bool_oid : Oid
  pub invalid_oid : Oid
  -- PostgreSQL 14 and later have `hashfuncid` in a `ScalarArrayOpExpr`.
  pub has_hashfuncid : Bool
