-- ===== src/Support/TagMap/Flags.antt =====
-- src/support.rs: `hasSubLinks` of the query that is planned, over both rewrites.
use promscale_extension.Prelude.{
  ◌≡◌, ◌⊎◌, refl, sym, ap, ◌∙◌, Bool, true, false, ◌||◌, Option, none, some, arith, Bool-cases, inl,
  inr, ok,
}
use promscale_extension.Support.Nodes.{
  Oid, Node, const, coerce_to_domain, relabel_type, op_expr, func_expr, scalar_array_op_expr,
  sub_link, other, FuncExpr, make_func_expr, Nodes, nil, cons, args, head, tail, last_of, pair,
  Planner, Input, other_request, null_root, simplify, Request, coerce_explicit_call, funccollid,
  inputcollid,
}
use promscale_extension.Support.Catalog.{FuncDetail, Catalog}
use promscale_extension.Support.Subquery.{rewrite_fn_call_to_subquery}
use promscale_extension.Support.Subquery.Laws.{
  rewrite_fn_call_to_subquery-some_iff, rewrite_fn_call_to_subquery-none,
}
use promscale_extension.Support.TagMap.{
  strip_type_coercion, Parts, init_plan_or, contains_expr, build, tag_map_rewrite,
}
use promscale_extension.Support.TagMap.Shape.{CallOf}
use promscale_extension.Support.TagMap.Outcomes.{tag_map_rewrite-some_iff}

-- Whether a subquery stands somewhere in a node.
unfoldable mutual
  pub has_link : Node → Bool
  has_link (const c) = false
  has_link (coerce_to_domain n) = has_link n
  has_link (relabel_type n) = has_link n
  has_link (op_expr o r s a b ns) = any_link ns
  has_link (func_expr f) = call_link f
  has_link (scalar_array_op_expr o f x u i ns) = any_link ns
  has_link (sub_link t i q) = true
  has_link (other i) = false

  pub call_link : FuncExpr → Bool
  call_link (make_func_expr f r ns c i k) = any_link ns

  pub any_link : Nodes → Bool
  any_link nil = false
  any_link (cons n ns) = has_link n || any_link ns

abbrev pub input_link : Input → Bool
input_link other_request = false
input_link (null_root f) = call_link f
input_link (simplify level f) = call_link f

call_link-args : (f : FuncExpr) → call_link f ≡ any_link (args f)
unfolding has_link
call_link-args (make_func_expr f r ns c i k) = refl

head_no_link : (ns : Nodes) (n : Node) → head ns ≡ some n → any_link ns ≡ false → has_link n ≡ false
unfolding has_link
head_no_link nil n e h = cc
head_no_link (cons m ns) n e h = ground arith

last_of_no_link :
    (m : Node) (ns : Nodes)
    → has_link m ≡ false
    → any_link ns ≡ false
    → has_link (last_of m ns) ≡ false
unfolding has_link
last_of_no_link m nil h k = h
last_of_no_link m (cons n ns) h k = last_of_no_link n ns (ground arith) (ground arith)

tail_no_link : (ns : Nodes) (n : Node) → tail ns ≡ some n → any_link ns ≡ false → has_link n ≡ false
unfolding has_link
tail_no_link nil n e h = cc
tail_no_link (cons m ns) n e h = ground (arith, last_of_no_link m ns)

strip_no_link : (n : Node) → has_link n ≡ false → has_link (strip_type_coercion n) ≡ false
unfolding has_link strip_type_coercion
strip_no_link (coerce_to_domain n) h = h
strip_no_link (relabel_type n) h = h
strip_no_link n h = h

module _ (c : Catalog) where
  open c use {type_is_array}

  -- The parts of a call without a subquery have none.
  parts_no_link :
      (f : FuncExpr) (m : Parts)
      → CallOf c f m
      → call_link f ≡ false
      → (has_link m.denormalize_arg ≡ false) × (has_link m.key ≡ false) × (has_link m.value ≡ false)
  unfolding has_link
  parts_no_link f m
        (
          left,
          first,
          last,
          (o, r, s, oc, ic, ns, inner, op, opname, first', last', (g, call, name, arg)),
        )
        h =
      let args_free : any_link (args f) ≡ false = sym (call_link-args f) ∙ h in
      let left_free = strip_no_link left (head_no_link (args f) left first args_free) in
      let ns_free : any_link ns ≡ false = sym (ap has_link op) ∙ left_free in
      let inner_free = strip_no_link inner (head_no_link ns inner first' ns_free) in
      let g_free : call_link g ≡ false = sym (ap has_link call) ∙ inner_free in
      (
        head_no_link (args g) m.denormalize_arg arg (sym (call_link-args g) ∙ g_free),
        tail_no_link ns m.key last' ns_free,
        tail_no_link (args f) m.value last args_free,
      )

  has_link-contains_expr :
      (f : FuncExpr) (o : Oid) (returns_array : Bool) (arg expr : Node)
      → has_link arg ≡ false
      → has_link expr ≡ false
      → has_link (contains_expr c f o returns_array arg expr) ≡ false
  unfolding has_link
  has_link-contains_expr f o true arg expr h k = rw (h, k) refl
  has_link-contains_expr f o false arg expr h k = rw (h, k) refl

  -- Either the planner is marked, or the call of the helper stands there as it is.
  init_plan_or-marked :
      (h : FuncExpr) (input : Input) (p : Planner) (out : Option Node × Planner)
      → rewrite_fn_call_to_subquery input p ≡ out
      → ((init_plan_or c h out).1.has_sub_links ≡ true)
        ⊎ ((init_plan_or c h out).0 ≡ func_expr h) × ((init_plan_or c h out).1 ≡ p)
  init_plan_or-marked h input p (none, p') e =
      inr (refl, rewrite_fn_call_to_subquery-none input p p' e)
  init_plan_or-marked h input p (some n, p') e =
      let (fcall, rewritable, node, marked) =
        (rewrite_fn_call_to_subquery-some_iff input p p' n).0 e in
      inl (ap (λ (q : Planner). q.has_sub_links) marked)

  has_link-helper :
      (h : FuncExpr) (key value : Node)
      → args h ≡ pair key value
      → has_link key ≡ false
      → has_link value ≡ false
      → has_link (func_expr h) ≡ false
  unfolding has_link
  has_link-helper h key value e k l = call_link-args h ∙ rw (e, k, l) refl

  build-marked :
      (req : Request) (m : Parts) (helper : FuncDetail) (o : Oid) (p : Planner)
      → CallOf c req.fcall m
      → (call_link req.fcall ≡ true → p.has_sub_links ≡ true)
      → has_link (build c req m helper o p).0 ≡ true
      → (build c req m helper o p).1.has_sub_links ≡ true
  unfolding build
  build-marked req m helper o p call before link =
      let h =
        make_func_expr helper.func_oid helper.ret_type_oid (pair m.key m.value)
          (funccollid req.fcall) (inputcollid req.fcall) coerce_explicit_call in
      let input = simplify req.query_level h in
      elim (init_plan_or-marked h input p (rewrite_fn_call_to_subquery input p) refl) [
        | inl marked ↦ marked
        | inr (left, same) ↦ elim (Bool-cases (call_link req.fcall)) [
          | inl l ↦ ap (λ (q : Planner). q.has_sub_links) same ∙ before l
          | inr l ↦
              let (arg, key, value) = parts_no_link req.fcall m call l in
              let helper_free = ap has_link left ∙ has_link-helper h m.key m.value refl key value in
              let free =
                has_link-contains_expr req.fcall o (type_is_array helper.ret_type_oid)
                  m.denormalize_arg (init_plan_or c h (rewrite_fn_call_to_subquery input p)).0 arg
                  helper_free in
              let clash : false ≡ true = sym free ∙ link in absurd (cc)
        ]
      ]

  -- Where `tag_map_rewrite` puts a subquery into what it returns, or leaves one there, the query that is
  -- planned is marked to have subqueries, given that it is marked if the call that came in had one.
  pub tag_map_rewrite-marked :
      (input : Input) (p p' : Planner) (n : Node)
      → tag_map_rewrite c input p ≡ ok (some n, p')
      → (input_link input ≡ true → p.has_sub_links ≡ true)
      → has_link n ≡ true
      → p'.has_sub_links ≡ true
  tag_map_rewrite-marked input p p' n e before link =
      let (req, m, name, o, (is_simplify, low, call, named), utf8, normal, op, built) =
        (tag_map_rewrite-some_iff c input p p' n).0 e in
      ap (λ (x : Node × Planner). x.1.has_sub_links) built
      ∙ build-marked req m _ o p call (λ l. before (ap input_link is_simplify ∙ l))
          (sym (ap (λ (x : Node × Planner). has_link x.0) built) ∙ link)
