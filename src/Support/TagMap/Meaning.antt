-- ===== src/Support/TagMap/Meaning.antt =====
-- src/support.rs: what the executor computes for what `tag_map_rewrite` puts in the place of a call.
-- The executor is a parameter, and so are the functions and operators of SQL.
use Prim.Native.String.{String}
use promscale_extension.Prelude.{
  ℕ, ◌≡◌, refl, sym, ap, subst, ◌∙◌, Bool, true, Option, none, some, List, [], ◌∷◌, if◌then◌else◌,
  Bool-cases, inl, inr, ok, some_unique,
}
use promscale_extension.Support.Nodes.{
  Oid, Node, op_expr, func_expr, scalar_array_op_expr, FuncExpr, make_func_expr, Nodes, nil, cons,
  funcid, args, funccollid, inputcollid, pair, Planner, simplify, Request, coerce_explicit_call,
  head, tail,
}
use promscale_extension.Support.Catalog.{FuncDetail, Catalog}
use promscale_extension.Support.Subquery.{subquery, rewrite_fn_call_to_subquery}
use promscale_extension.Support.Subquery.Laws.{AllConstant, rewrite_fn_call_to_subquery-some_iff}
use promscale_extension.Support.TagMap.{
  denormalize_func_name, arrow_op_name, strip_type_coercion, Parts, init_plan_or, contains_expr,
  build, helper_detail, tag_map_rewrite,
}
use promscale_extension.Support.TagMap.Shape.{CallOf, match_call-some_iff}
use promscale_extension.Support.TagMap.Outcomes.{contains_op, tag_map_rewrite-some_iff}

module _ (c : Catalog) where
  open c use {get_opname, get_func_name}

  -- `tag_map_denormalize(map) -> key OP value`, each with as many arguments as it is written with.
  abbrev pub TagMapCall : FuncExpr → Parts → Type 0
  TagMapCall f m =
      (left inner : Node) × (arrow r : Oid) × (s : Bool) × (oc ic : Oid) × (g : FuncExpr) × (args f
        ≡ pair left m.value)
      × (strip_type_coercion left ≡ op_expr arrow r s oc ic (pair inner m.key))
      × (get_opname arrow ≡ some arrow_op_name)
      × (strip_type_coercion inner ≡ func_expr g)
      × (get_func_name (funcid g) ≡ some denormalize_func_name)
      × (args g ≡ cons m.denormalize_arg nil)

  TagMapCall-CallOf : (f : FuncExpr) (m : Parts) → TagMapCall f m → CallOf c f m
  TagMapCall-CallOf f m (left, inner, arrow, r, s, oc, ic, g, fa, la, an, ig, gn, ga) = (
    left,
    ap head fa,
    ap tail fa,
    (arrow, r, s, oc, ic, pair inner m.key, inner, la, an, refl, refl, (g, ig, gn, ap head ga)),
  )

  -- The parts of such a call are the ones that are found.
  found_parts : (f : FuncExpr) (m m' : Parts) → TagMapCall f m → CallOf c f m' → m ≡ m'
  found_parts f m m' shape found = some_unique m m' (
      sym ((match_call-some_iff c f m).1 (TagMapCall-CallOf f m shape))
      ∙ (match_call-some_iff c f m').1 found)

-- `pg_sys::ExecEvalExpr` and the functions behind it, within one statement.
pub record Executor : Type 1 where
  pub Row : Type 0
  pub Value : Type 0
  -- The function is declared STABLE or IMMUTABLE.
  pub stable : Oid → Bool
  pub eval : Node → Row → Value
  pub call : Oid → List Value → Value
  pub operate : Oid → List Value → Value
  -- `a OP ANY (b)`.
  pub any : Oid → Value → Value → Value

module _ (x : Executor) (c : Catalog) where
  open x use {Row, Value, stable, eval, call, operate, any}
  open c use {get_func_name, type_is_array}

  abbrev pub evals : Nodes → Row → List Value
  evals nil row = []
  evals (cons n ns) row = eval n row ∷ evals ns row

  -- A call of a stable function, and the operator `@>`, take the values of their arguments.
  abbrev pub IsCompositional : Type 0
  IsCompositional =
      ((f : FuncExpr) (row : Row)
        → stable (funcid f) ≡ true
        → eval (func_expr f) row ≡ call (funcid f) (evals (args f) row))
      × ((o r : Oid) (s : Bool) (oc ic : Oid) (ns : Nodes) (row : Row)
          → contains_op c ≡ some o
          → eval (op_expr o r s oc ic ns) row ≡ operate o (evals ns row))
      × ((o f h ic : Oid) (a b : Node) (row : Row)
          → contains_op c ≡ some o
          → eval (scalar_array_op_expr o f h true ic (pair a b)) row
            ≡ any o (eval a row) (eval b row))

  -- A subquery without a `FROM` has the value of the call that it selects.
  abbrev pub SelectsOnce : Type 0
  SelectsOnce =
      (f : FuncExpr) (row : Row)
      → stable (funcid f) ≡ true
      → AllConstant (args f)
      → eval (subquery f) row ≡ eval (func_expr f) row

  -- `left @> right`, or `left @> ANY (right)` where the helper returns an array.
  abbrev pub contains_value : Bool → Oid → Value → Value → Value
  contains_value returns_array o left right =
      if returns_array then any o left right else operate o (left ∷ right ∷ [])

  init_plan_or-eval :
      SelectsOnce
      → (level : ℕ) (h : FuncExpr) (p : Planner) (row : Row) (r : Option Node × Planner)
      → stable (funcid h) ≡ true
      → rewrite_fn_call_to_subquery (simplify level h) p ≡ r
      → eval (init_plan_or c h r).0 row ≡ eval (func_expr h) row
  init_plan_or-eval once level h p row (none, p') s e = refl
  init_plan_or-eval once level h p row (some n, p') s e =
      let (f, (level', same, low, constants), node, marked) =
        (rewrite_fn_call_to_subquery-some_iff (simplify level h) p p' n).0 e in
      let h≡f : h ≡ f = cc in
      ap (λ n. eval n row) node
      ∙ once f row (subst (λ g. stable (funcid g) ≡ true) h≡f s) constants
      ∙ ap (λ f. eval (func_expr f) row) (sym h≡f)

  contains_expr-eval :
      IsCompositional
      → (f : FuncExpr) (o : Oid) (returns_array : Bool) (a b : Node) (row : Row)
      → contains_op c ≡ some o
      → eval (contains_expr c f o returns_array a b) row
        ≡ contains_value returns_array o (eval a row) (eval b row)
  contains_expr-eval (calls, ops, anys) f o returns_array a b row op =
      elim (Bool-cases returns_array) [
        | inl e ↦ rw e (anys o _ _ _ a b row op)
        | inr e ↦ rw e (ops o _ _ _ _ (pair a b) row op)
      ]

  -- What `build` makes has the value of `@>` on the stored map and the helper's result.
  build-eval :
      IsCompositional
      → SelectsOnce
      → (req : Request) (m : Parts) (helper : FuncDetail) (o : Oid) (p : Planner) (row : Row)
      → stable helper.func_oid ≡ true
      → contains_op c ≡ some o
      → eval (build c req m helper o p).0 row
        ≡ contains_value
            (type_is_array helper.ret_type_oid)
            o
            (eval m.denormalize_arg row)
            (call helper.func_oid (eval m.key row ∷ eval m.value row ∷ []))
  unfolding build
  build-eval compositional once req m helper o p row s op =
      let h =
        make_func_expr helper.func_oid helper.ret_type_oid (pair m.key m.value)
          (funccollid req.fcall) (inputcollid req.fcall) coerce_explicit_call in
      contains_expr-eval compositional req.fcall o (type_is_array helper.ret_type_oid)
        m.denormalize_arg _ row op
      ∙ ap (contains_value (type_is_array helper.ret_type_oid) o (eval m.denormalize_arg row))
          (init_plan_or-eval once req.query_level h p row _ s refl ∙ compositional.0 h row s)

  -- Whatever `tag_map_rewrite` puts in the place of `tag_map_denormalize(map) -> key OP value`, its
  -- value on every row is that of `map @> helper(key, value)`, or of `map @> ANY (helper(key, value))`
  -- if the helper returns an array, where the helper is the function that is found for the name of
  -- the operator's function and is declared stable, and the executor evaluates stable calls and `@>`
  -- on the values of their arguments and a subquery without a `FROM` to the call that it selects.
  pub tag_map_rewrite-eval :
      (level : ℕ) (f : FuncExpr) (name : String) (o : Oid) (m : Parts) (p p' : Planner) (n : Node)
      → IsCompositional
      → SelectsOnce
      → get_func_name (funcid f) ≡ some name
      → contains_op c ≡ some o
      → stable (helper_detail c name).func_oid ≡ true
      → TagMapCall c f m
      → tag_map_rewrite c (simplify level f) p ≡ ok (some n, p')
      → (row : Row)
      → eval n row
        ≡ contains_value
            (type_is_array (helper_detail c name).ret_type_oid)
            o
            (eval m.denormalize_arg row)
            (call (helper_detail c name).func_oid (eval m.key row ∷ eval m.value row ∷ []))
  tag_map_rewrite-eval level f name o m p p' n compositional once named op s shape e row =
      let (req, m', name', o', (is_simplify, low, found, named'), utf8, normal, op', built) =
        (tag_map_rewrite-some_iff c (simplify level f) p p' n).0 e in
      let same_call : f ≡ req.fcall = cc in
      let same_parts : m' ≡ m =
        sym (found_parts c f m m' shape (subst (λ f. CallOf c f m') (sym same_call) found)) in
      let same_name : name' ≡ name =
        some_unique name' name
          (sym named' ∙ ap (λ f. get_func_name (funcid f)) (sym same_call) ∙ named) in
      let same_op : o' ≡ o = some_unique o' o (sym op' ∙ op) in
      ap (λ (x : Node × Planner). eval x.0 row) built
      ∙ rw (same_parts, same_name, same_op)
          (build-eval compositional once req m (helper_detail c name) o p row s op)
