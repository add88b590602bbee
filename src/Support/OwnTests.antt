-- ===== src/Support/OwnTests.antt =====
-- src/support.rs: the tests of the two support functions, run on the model. A test asks PostgreSQL to
-- explain a query; here the node that the support function returns is read as the filter that the
-- test expects, `$0` being an InitPlan.
use Prim.Native.String.{String}
use text.Mathlib.Text as Text
use promscale_extension.Prelude.{
  zero, suc, ◌≡◌, refl, true, false, Option, none, some, List, [], ◌∷◌, Result, ok, ◌>>=◌, ◌==◌,
  if◌then◌else◌,
}
use promscale_extension.Support.Nodes.{
  Oid, Node, const, op_expr, func_expr, scalar_array_op_expr, sub_link, other, FuncExpr,
  make_func_expr, nil, cons, pair, Planner, simplify, coerce_explicit_call,
}
use promscale_extension.Support.Catalog.{
  func_detail_normal, func_detail_notfound, FuncDetail, Catalog,
}
use promscale_extension.Support.Subquery.{
  extract_simplify_request, arg_can_be_put_into_subquery, args_are_constants,
  rewrite_fn_call_to_subquery,
}
use promscale_extension.Support.TagMap.{
  strip_type_coercion, match_denormalize, match_arrow, match_call, build, tag_map_rewrite,
}

-- 1 is `tag_map_denormalize`, 2 is `->`, 3 and 4 are `tag_v_eq` and `tag_v_ne`, 5 is `@>`, 6 is a
-- function of the test's own; a helper has the number of its function and ten.
abbrev op_name : Oid → Option String
op_name (suc (suc zero)) = some "->"
op_name _ = none

abbrev func_name : Oid → Option String
func_name (suc zero) = some "tag_map_denormalize"
func_name (suc (suc (suc zero))) = some "tag_v_eq"
func_name (suc (suc (suc (suc zero)))) = some "tag_v_ne"
func_name _ = none

abbrev jsonb_type : Oid
jsonb_type = 3802

abbrev jsonb_array_type : Oid
jsonb_array_type = 3807

abbrev helper_named : String → FuncDetail
helper_named name =
    if Text.◌==◌ name "tag_v_eq_matching_tags"
    then record { func_oid = 13; ret_type_oid = jsonb_type; code = func_detail_normal }
    else if Text.◌==◌ name "tag_v_ne_matching_tags"
    then record { func_oid = 14; ret_type_oid = jsonb_array_type; code = func_detail_normal }
    else record { func_oid = 0; ret_type_oid = 0; code = func_detail_notfound }

-- By the name behind the schema.
abbrev helper_of : List String → FuncDetail
helper_of (schema ∷ name ∷ []) = helper_named name
helper_of _ = helper_named ""

abbrev catalog : Catalog
catalog = record {
  get_opname = op_name;
  get_func_name = func_name;
  is_utf8 = λ s. true;
  func_get_detail = λ names types. helper_of names;
  type_is_array = λ t. t == jsonb_array_type;
  lookup_oper_name = λ names l r. some 5;
  get_opcode = λ o. 8;
  text_oid = 25;
  jsonb_oid = jsonb_type;
  bool_oid = 16;
  invalid_oid = 0;
  has_hashfuncid = true;
}

data Filter : Type 0 where
  -- `(tm @> $0)` and `(tm @> helper(key, value))`.
  contains_init_plan contains_call : Filter
  -- The same with `ANY (…)`.
  contains_any_init_plan contains_any_call : Filter
  init_plan : Filter

abbrev tm : Node
tm = other 1

abbrev filter_of : Node → Option Filter
filter_of (op_expr opno t s c i (cons (other (suc zero)) (cons (sub_link k id q) nil))) =
    some contains_init_plan
filter_of (op_expr opno t s c i (cons (other (suc zero)) (cons (func_expr f) nil))) =
    some contains_call
filter_of
      (scalar_array_op_expr opno f h true c
        (cons (other (suc zero)) (cons (sub_link k id q) nil))) =
    some contains_any_init_plan
filter_of
      (scalar_array_op_expr opno f h true c (cons (other (suc zero)) (cons (func_expr g) nil))) =
    some contains_any_call
filter_of (sub_link k id q) = some init_plan
filter_of _ = none

abbrev found : Option Node × Planner → Option Filter
found (none, p) = none
found (some n, p) = filter_of n

abbrev at_rest : Planner
at_rest = record { has_sub_links = false; warnings = 0 }

-- `op(tag_map_denormalize(tm)->'a', value)`.
abbrev condition : Oid → Node → FuncExpr
condition op value =
    make_func_expr op 16
      (pair
        (op_expr 2 jsonb_type false 0 0 (
          pair (func_expr (make_func_expr 1 jsonb_type (cons tm nil) 0 0 coerce_explicit_call))
            (const 97)))
        value)
      0 0 coerce_explicit_call

abbrev filter_for : Oid → Node → Result (Option Filter)
filter_for op value = do
  rewritten ← tag_map_rewrite catalog (simplify 1 (condition op value)) at_rest
  ok (found rewritten)

-- `arbitrary_function('const', 'value')`.
abbrev arbitrary_call : FuncExpr
arbitrary_call = make_func_expr 6 25 (pair (const 1) (const 2)) 0 0 coerce_explicit_call

-- `0::text::jsonb` is a constant, `v::text::jsonb` is made of a column.
abbrev test_supported_tag_map_function_output_as_expected : List (Result (Option Filter))
test_supported_tag_map_function_output_as_expected =
    filter_for 3 (const 0)
    ∷ filter_for 3 (other 2)
    ∷ filter_for 4 (const 0)
    ∷ filter_for 4 (other 2)
    ∷ []

abbrev test_supported_function_output_as_expected : Option Filter
test_supported_function_output_as_expected =
    found (rewrite_fn_call_to_subquery (simplify 1 arbitrary_call) at_rest)

-- Each test passes.
all_pass :
    (test_supported_tag_map_function_output_as_expected
      ≡ ok (some contains_init_plan)
        ∷ ok (some contains_call)
        ∷ ok (some contains_any_init_plan)
        ∷ ok (some contains_any_call)
        ∷ [])
    × (test_supported_function_output_as_expected ≡ some init_plan)
unfolding tag_map_rewrite extract_simplify_request strip_type_coercion match_denormalize match_arrow
    match_call build rewrite_fn_call_to_subquery args_are_constants arg_can_be_put_into_subquery
all_pass = (refl, refl)
