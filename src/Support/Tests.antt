-- ===== src/Support/Tests.antt =====
-- Runs of the planner support on a small catalog.
use Prim.Native.String.{String}
use promscale_extension.Prelude.{
  ℕ, zero, suc, ◌+◌, ◌++◌, ◌==◌, ◌≡◌, ◌↔◌, refl, ap, true, false, Option, none, some, List, [], ◌∷◌,
  arith, ok, err, helper_not_regular, inl, inr,
}
use promscale_extension.Support.Nodes.{
  Oid, Node, const, coerce_to_domain, relabel_type, op_expr, func_expr, scalar_array_op_expr,
  sub_link, other, FuncExpr, make_func_expr, Query, query, TargetList, no_targets, target, Nodes,
  nil, cons, pair, args, funcid, Planner, simplify, Request, coerce_explicit_call,
}
use promscale_extension.Support.Catalog.{
  FuncDetailCode, func_detail_normal, func_detail_aggregate, Catalog,
}
use promscale_extension.Support.Subquery.{
  extract_simplify_request, arg_can_be_put_into_subquery, args_are_constants, subquery,
  rewrite_fn_call_to_subquery,
}
use promscale_extension.Support.Subquery.Laws.{
  AllConstant, Rewritable, rewrite_fn_call_to_subquery-some_iff,
}
use promscale_extension.Support.TagMap.{
  strip_type_coercion, Parts, match_denormalize, match_arrow, match_call, build, helper_detail,
  tag_map_rewrite,
}
use promscale_extension.Support.TagMap.Outcomes.{Candidate, contains_op, tag_map_rewrite-some_iff}
use promscale_extension.Support.TagMap.Errors.{tag_map_rewrite-err_iff}
use promscale_extension.Support.TagMap.Flags.{has_link, input_link, tag_map_rewrite-marked}
use promscale_extension.Support.TagMap.Meaning.{
  Executor, evals, IsCompositional, SelectsOnce, TagMapCall, tag_map_rewrite-eval,
}

-- The function 1 denormalizes, the operator 2 is `->`, 3 is `tag_v_eq`, with the helper 4 of the code
-- that is given, and `@>` is 5.
abbrev op_name : Oid → Option String
op_name (suc (suc zero)) = some "->"
op_name _ = none

abbrev func_name : Oid → Option String
func_name (suc zero) = some "tag_map_denormalize"
func_name (suc (suc (suc zero))) = some "tag_v_eq"
func_name _ = none

abbrev catalog_of : FuncDetailCode → Catalog
catalog_of code = record {
  get_opname = op_name;
  get_func_name = func_name;
  is_utf8 = λ s. true;
  func_get_detail = λ names types. record { func_oid = 4; ret_type_oid = 7; code = code };
  type_is_array = λ t. false;
  lookup_oper_name = λ names l r. some 5;
  get_opcode = λ o. 8;
  text_oid = 25;
  jsonb_oid = 3802;
  bool_oid = 16;
  invalid_oid = 0;
  has_hashfuncid = true;
}

abbrev catalog : Catalog
catalog = catalog_of func_detail_normal

-- `tag_map_denormalize(map) -> 10 = 11`, with a coercion on the left.
abbrev tag_map_call : FuncExpr
tag_map_call =
    make_func_expr 3 16
      (pair
        (coerce_to_domain (
          op_expr 2 7 false 0 0 (
            pair (func_expr (make_func_expr 1 7 (cons (other 9) nil) 0 0 coerce_explicit_call))
              (const 10))))
        (const 11))
      0 100 coerce_explicit_call

abbrev helper_call : FuncExpr
helper_call = make_func_expr 4 7 (pair (const 10) (const 11)) 0 100 coerce_explicit_call

abbrev start : Planner
start = record { has_sub_links = false; warnings = 0 }

abbrev marked : Planner
marked = record { has_sub_links = true; warnings = 0 }

abbrev rewritten : Node
rewritten = op_expr 5 16 false 0 100 (pair (other 9) (subquery helper_call))

tag_map_rewrite_runs :
    tag_map_rewrite catalog (simplify 1 tag_map_call) start ≡ ok (some rewritten, marked)
unfolding tag_map_rewrite extract_simplify_request strip_type_coercion match_denormalize match_arrow
    match_call build rewrite_fn_call_to_subquery args_are_constants arg_can_be_put_into_subquery
tag_map_rewrite_runs = refl

some_link : AllConstant (args helper_call)
some_link = ((0, 10, refl), ((0, 11, refl), tt))

abbrev request : Request
request = record { query_level = 1; fcall = tag_map_call }

abbrev parts : Parts
parts = record { denormalize_arg = other 9; key = const 10; value = const 11 }

call-Candidate :
    (code : FuncDetailCode)
    → Candidate (catalog_of code) (simplify 1 tag_map_call) request parts "tag_v_eq"
unfolding strip_type_coercion
call-Candidate code = (
  refl,
  omega arith,
  (_, refl, refl, (_, _, _, _, _, _, _, refl, refl, refl, refl, (_, refl, refl, refl))),
  refl,
)

no_link_before : input_link (simplify 1 tag_map_call) ≡ true → start.has_sub_links ≡ true
unfolding has_link
no_link_before e = e

link_after : has_link rewritten ≡ true
unfolding has_link
link_after = refl

-- An executor whose values record what was called with what.
abbrev join : List (List ℕ) → List ℕ
join [] = []
join (v ∷ vs) = v ++ join vs

unfoldable mutual
  eval_node : Node → ℕ → List ℕ
  eval_node (const c) row = 0 ∷ c ∷ []
  eval_node (coerce_to_domain n) row = eval_node n row
  eval_node (relabel_type n) row = eval_node n row
  eval_node (op_expr o r s a b ns) row = 2 ∷ o ∷ eval_nodes ns row
  eval_node (func_expr f) row = eval_call f row
  eval_node (scalar_array_op_expr o f x u i ns) row = 3 ∷ o ∷ eval_nodes ns row
  eval_node (sub_link t i q) row = eval_query q row
  eval_node (other i) row = 4 ∷ (i + row) ∷ []

  eval_call : FuncExpr → ℕ → List ℕ
  eval_call (make_func_expr f r ns c i k) row = 1 ∷ f ∷ eval_nodes ns row

  eval_query : Query → ℕ → List ℕ
  eval_query (query t j s ts) row = eval_targets ts row

  eval_targets : TargetList → ℕ → List ℕ
  eval_targets no_targets row = []
  eval_targets (target n i ts) row = eval_node n row

  eval_nodes : Nodes → ℕ → List ℕ
  eval_nodes nil row = []
  eval_nodes (cons n ns) row = eval_node n row ++ eval_nodes ns row

abbrev executor : Executor
executor = record {
  Row = ℕ;
  Value = List ℕ;
  stable = λ f. f == 4;
  eval = eval_node;
  call = λ f vs. 1 ∷ f ∷ join vs;
  operate = λ o vs. 2 ∷ o ∷ join vs;
  any = λ o a b. 3 ∷ o ∷ join (a ∷ b ∷ []);
}

join-evals : (ns : Nodes) (row : ℕ) → eval_nodes ns row ≡ join (evals executor catalog ns row)
unfolding eval_node
join-evals nil row = refl
join-evals (cons n ns) row = ap (λ v. eval_node n row ++ v) (join-evals ns row)

call-evals :
    (f : FuncExpr) (row : ℕ)
    → eval_call f row ≡ 1 ∷ funcid f ∷ join (evals executor catalog (args f) row)
unfolding eval_node
call-evals (make_func_expr f r ns c i k) row = ap (λ v. 1 ∷ f ∷ v) (join-evals ns row)

executor-IsCompositional : IsCompositional executor catalog
unfolding eval_node
executor-IsCompositional = (
  λ f row s. call-evals f row,
  λ o r s oc ic ns row op. ap (λ v. 2 ∷ o ∷ v) (join-evals ns row),
  λ o f h ic a b row op. refl,
)

executor-SelectsOnce : SelectsOnce executor catalog
unfolding eval_node
executor-SelectsOnce f row s constants = refl

rewrite_fn_call_to_subquery-some_iff_example :
    (rewrite_fn_call_to_subquery (simplify 1 helper_call) start
      ≡ (some (subquery helper_call), marked))
    ↔ ((fcall : FuncExpr) × Rewritable (simplify 1 helper_call) fcall
        × (subquery helper_call ≡ subquery fcall)
        × (marked ≡ record start { has_sub_links = true }))
rewrite_fn_call_to_subquery-some_iff_example =
    rewrite_fn_call_to_subquery-some_iff (simplify 1 helper_call) start marked
      (subquery helper_call)

tag_map_rewrite-some_iff_example :
    (req : Request) × (m : Parts) × (name : String) × (o : Oid) × Candidate catalog
      (simplify 1 tag_map_call)
      req
      m
      name
    × (true ≡ true)
    × ((helper_detail catalog name).code ≡ func_detail_normal)
    × (contains_op catalog ≡ some o)
    × ((rewritten, marked) ≡ build catalog req m (helper_detail catalog name) o start)
tag_map_rewrite-some_iff_example =
    (tag_map_rewrite-some_iff catalog (simplify 1 tag_map_call) start marked rewritten).0
      tag_map_rewrite_runs

tag_map_rewrite-err_iff_example :
    tag_map_rewrite (catalog_of func_detail_aggregate) (simplify 1 tag_map_call) start
    ≡ err helper_not_regular
tag_map_rewrite-err_iff_example =
    (tag_map_rewrite-err_iff (catalog_of func_detail_aggregate) (simplify 1 tag_map_call) start
        helper_not_regular).1
      (
        request,
        parts,
        "tag_v_eq",
        call-Candidate func_detail_aggregate,
        inr (refl, inl (λ e. cc, λ e. cc, refl)),
      )

tag_map_rewrite-marked_example : marked.has_sub_links ≡ true
tag_map_rewrite-marked_example =
    tag_map_rewrite-marked catalog (simplify 1 tag_map_call) start marked rewritten
      tag_map_rewrite_runs no_link_before link_after

call-TagMapCall : TagMapCall catalog tag_map_call parts
unfolding strip_type_coercion
call-TagMapCall = (_, _, _, _, _, _, _, _, refl, refl, refl, refl, refl, refl)

-- The operator 5 on the map of the row and the helper 4 of the key 10 and the value 11.
tag_map_rewrite-eval_example : eval_node rewritten 7 ≡ 2 ∷ 5 ∷ 4 ∷ 16 ∷ 1 ∷ 4 ∷ 0 ∷ 10 ∷ 0 ∷ 11 ∷ []
unfolding eval_node
tag_map_rewrite-eval_example =
    tag_map_rewrite-eval executor catalog 1 tag_map_call "tag_v_eq" 5 parts start marked rewritten
      executor-IsCompositional executor-SelectsOnce refl refl refl call-TagMapCall
      tag_map_rewrite_runs 7
