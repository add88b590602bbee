-- ===== src/Support/TagMap.antt =====
-- src/support.rs: `tag_map_rewrite`, which turns an operator on a denormalized tag map into one that
-- an index of the stored tag map supports.
pub mod Shape
pub mod Outcomes
pub mod Errors
pub mod Flags
pub mod Meaning
use Prim.Native.String.{String, ◌++◌}
use text.Mathlib.Text.{◌==◌}
use promscale_extension.Prelude.{
  ℕ, zero, suc, ◌+◌, Bool, true, false, Option, none, some, List, [], ◌∷◌, if◌then◌else◌, Result,
  ok, err, non_utf8_name, helper_not_regular, operator_not_found,
}
use promscale_extension.Support.Nodes.{
  Oid, coerce_explicit_call, Node, const, coerce_to_domain, relabel_type, op_expr, func_expr,
  scalar_array_op_expr, sub_link, other, FuncExpr, make_func_expr, Nodes, nil, cons, funcid, args,
  funccollid, inputcollid, head, tail, pair, Planner, Input, simplify, Request,
}
use promscale_extension.Support.Catalog.{
  FuncDetailCode, func_detail_notfound, func_detail_normal, FuncDetail, Catalog,
}
use promscale_extension.Support.Subquery.{extract_simplify_request, rewrite_fn_call_to_subquery}

abbrev pub denormalize_func_name : String
denormalize_func_name = "tag_map_denormalize"

abbrev pub arrow_op_name : String
arrow_op_name = "->"

abbrev pub helper_func_schema : String
helper_func_schema = "_ps_trace"

abbrev pub contains_op_path : List String
contains_op_path = "pg_catalog" ∷ "@>" ∷ []

unfoldable pub strip_type_coercion : Node → Node
strip_type_coercion (coerce_to_domain arg) = arg
strip_type_coercion (relabel_type arg) = arg
strip_type_coercion expr = expr

-- `?` on an option.
infixl 5 ◌>>=◌
abbrev pub ◌>>=◌ {ℓ κ} : {A : Type ℓ} {B : Type κ} → Option A → (A → Option B) → Option B
none >>= f = none
some found >>= f = f found

-- `filter` and `?` on the name behind an oid.
abbrev pub named : String → Option String → Option (Unit {0})
named expected none = none
named expected (some name) = if name == expected then some tt else none

-- tag_map_denormalize(map) -> key OP value
pub record Parts : Type 0 where
  pub denormalize_arg : Node
  pub key : Node
  pub value : Node

module _ (c : Catalog) where
  open c use {
    get_opname, get_func_name, is_utf8, func_get_detail, type_is_array, lookup_oper_name,
    get_opcode, text_oid, jsonb_oid, bool_oid, invalid_oid, has_hashfuncid,
  }

  -- The argument of `tag_map_denormalize`.
  unfoldable pub match_denormalize : Node → Option Node
  match_denormalize (func_expr f) = do
    _ ← named denormalize_func_name (get_func_name (funcid f))
    head (args f)
  match_denormalize _ = none

  -- The operands of `->`: the argument of the call on its left, and the key.
  unfoldable pub match_arrow : Node → Option (Node × Node)
  unfolding match_denormalize
  match_arrow (op_expr opno opresulttype opretset opcollid collation arrow_args) = do
    _ ← named arrow_op_name (get_opname opno)
    left ← head arrow_args
    key ← tail arrow_args
    denormalize_arg ← match_denormalize (strip_type_coercion left)
    some (denormalize_arg, key)
  match_arrow _ = none

  unfoldable pub match_call : FuncExpr → Option Parts
  unfolding match_arrow
  match_call op_func_expr = do
    left ← head (args op_func_expr)
    value ← tail (args op_func_expr)
    m ← match_arrow (strip_type_coercion left)
    some (record { denormalize_arg = m.0; key = m.1; value = value })

  abbrev pub set_sa_hashfuncid : Oid → Oid → Oid
  set_sa_hashfuncid hashfuncid hash_func_oid = if has_hashfuncid then hash_func_oid else hashfuncid

  -- The call of the helper, as a subquery where that can be.
  abbrev pub init_plan_or : FuncExpr → Option Node × Planner → Node × Planner
  init_plan_or helper_func_expr (none, p) = (func_expr helper_func_expr, p)
  init_plan_or helper_func_expr (some n, p) = (n, p)

  abbrev pub contains_expr : FuncExpr → Oid → Bool → Node → Node → Node
  contains_expr f contains_op returns_array denormalize_arg helper =
      if returns_array
      then scalar_array_op_expr contains_op (get_opcode contains_op)
          (set_sa_hashfuncid 0 invalid_oid) true (inputcollid f) (pair denormalize_arg helper)
      else op_expr contains_op bool_oid false (funccollid f) (inputcollid f)
          (pair denormalize_arg helper)

  -- What replaces the call, once the helper and the operator are found.
  unfoldable pub build : Request → Parts → FuncDetail → Oid → Planner → Node × Planner
  build req m helper contains_op p =
      let f = req.fcall in
      let helper_func_expr =
        make_func_expr helper.func_oid helper.ret_type_oid (pair m.key m.value) (funccollid f)
          (inputcollid f) coerce_explicit_call in
      let (expr, p') =
        init_plan_or helper_func_expr
          (rewrite_fn_call_to_subquery (simplify req.query_level helper_func_expr) p) in
      (contains_expr f contains_op (type_is_array helper.ret_type_oid) m.denormalize_arg expr, p')

  abbrev pub with_operator :
      Request → Parts → FuncDetail → Option Oid → Planner → Result (Option Node × Planner)
  with_operator req m helper none p = err operator_not_found
  with_operator req m helper (some contains_op) p =
      let (n, p') = build req m helper contains_op p in ok (some n, p')

  -- By the code of the helper.
  abbrev pub with_helper :
      Request → Parts → FuncDetail → FuncDetailCode → Planner → Result (Option Node × Planner)
  with_helper req m helper func_detail_notfound p =
      ok (none, record p { warnings = suc p.warnings })
  with_helper req m helper func_detail_normal p =
      with_operator req m helper (lookup_oper_name contains_op_path jsonb_oid jsonb_oid) p
  with_helper req m helper _ p = err helper_not_regular

  abbrev pub helper_detail : String → FuncDetail
  helper_detail top_level_func_name =
      func_get_detail (helper_func_schema ∷ (top_level_func_name ++ "_matching_tags") ∷ [])
        (text_oid ∷ jsonb_oid ∷ [])

  abbrev pub with_name : Request → Parts → Option String → Planner → Result (Option Node × Planner)
  with_name req m none p = ok (none, p)
  with_name req m (some name) p =
      if is_utf8 name
      then with_helper req m (helper_detail name) (helper_detail name).code p
      else err non_utf8_name

  abbrev pub with_parts : Request → Option Parts → Planner → Result (Option Node × Planner)
  with_parts req none p = ok (none, p)
  with_parts req (some m) p = with_name req m (get_func_name (funcid req.fcall)) p

  abbrev pub with_request : Option Request → Planner → Result (Option Node × Planner)
  with_request none p = ok (none, p)
  with_request (some req) p = with_parts req (match_call req.fcall) p

  unfoldable pub tag_map_rewrite : Input → Planner → Result (Option Node × Planner)
  tag_map_rewrite input p = with_request (extract_simplify_request input) p
