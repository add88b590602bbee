-- ===== src/Support/Subquery.antt =====
-- src/support.rs: `rewrite_fn_call_to_subquery`, which turns a call on constants into a subquery that
-- is evaluated once.
pub mod Laws
use promscale_extension.Prelude.{
  ℕ, zero, suc, Bool, true, false, ◌&&◌, Option, none, some, ltb, if◌then◌else◌,
}
use promscale_extension.Support.Nodes.{
  SubLinkType, expr_sublink, cmd_select, from_nothing, Node, const, coerce_to_domain, relabel_type,
  func_expr, sub_link, other, FuncExpr, make_func_expr, Query, query, TargetList, no_targets,
  target, Nodes, nil, cons, args, Planner, Input, other_request, null_root, simplify, Request,
}

unfoldable pub extract_simplify_request : Input → Option Request
extract_simplify_request other_request = none
extract_simplify_request (null_root fcall) = none
extract_simplify_request (simplify query_level fcall) =
    if ltb 1 query_level then none else some (record { query_level = query_level; fcall = fcall })

unfoldable pub arg_can_be_put_into_subquery : Node → Bool
arg_can_be_put_into_subquery (const c) = true
arg_can_be_put_into_subquery (coerce_to_domain arg) = arg_can_be_put_into_subquery arg
arg_can_be_put_into_subquery _ = false

unfoldable pub args_are_constants : Nodes → Bool
args_are_constants nil = true
args_are_constants (cons arg rest) =
    let more = args_are_constants rest in arg_can_be_put_into_subquery arg && more

-- The query `SELECT fcall` as an expression.
abbrev pub subquery : FuncExpr → Node
subquery fcall =
    sub_link expr_sublink 0
      (query cmd_select from_nothing true (target (func_expr fcall) 1 no_targets))

abbrev pub simplify_call : Option Request → Planner → Option Node × Planner
simplify_call none p = (none, p)
simplify_call (some req) p =
    if args_are_constants (args req.fcall)
    then (some (subquery req.fcall), record p { has_sub_links = true })
    else (none, p)

-- The null pointer is `none`.
unfoldable pub rewrite_fn_call_to_subquery : Input → Planner → Option Node × Planner
rewrite_fn_call_to_subquery input p = simplify_call (extract_simplify_request input) p
