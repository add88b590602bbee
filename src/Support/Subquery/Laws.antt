-- ===== src/Support/Subquery/Laws.antt =====
-- src/support.rs: which calls `rewrite_fn_call_to_subquery` rewrites, and what it does to the planner.
use promscale_extension.Prelude.{
  ℕ, zero, suc, ◌≤◌, ◌≡◌, ◌↔◌, refl, sym, ap, ◌∙◌, true, Option, none, some, ltb, arith, Bool-cases,
  inl, inr, le→not-ltb, not-ltb→le,
}
use promscale_extension.Support.Nodes.{
  Node, const, coerce_to_domain, relabel_type, op_expr, func_expr, scalar_array_op_expr, sub_link,
  other, FuncExpr, Nodes, nil, cons, args, Planner, Input, other_request, null_root, simplify,
  Request,
}
use promscale_extension.Support.Subquery.{
  extract_simplify_request, arg_can_be_put_into_subquery, args_are_constants, subquery,
  simplify_call, rewrite_fn_call_to_subquery,
}

-- A node under some number of domain coercions.
abbrev pub domains : ℕ → Node → Node
domains zero n = n
domains (suc k) n = coerce_to_domain (domains k n)

abbrev pub IsConstant : Node → Type 0
IsConstant n = (k : ℕ) × (c : ℕ) × (n ≡ domains k (const c))

abbrev pub AllConstant : Nodes → Type 0
AllConstant nil = Unit
AllConstant (cons n ns) = IsConstant n × AllConstant ns

pub arg-IsConstant : (n : Node) → arg_can_be_put_into_subquery n ≡ true → IsConstant n
unfolding arg_can_be_put_into_subquery
arg-IsConstant (const c) h = (0, c, refl)
arg-IsConstant (coerce_to_domain n) h =
    let (k, c, e) = arg-IsConstant n h in (suc k, c, ap coerce_to_domain e)
arg-IsConstant (relabel_type n) h = absurd (ground arith)
arg-IsConstant (op_expr o r s a b ns) h = absurd (ground arith)
arg-IsConstant (func_expr f) h = absurd (ground arith)
arg-IsConstant (scalar_array_op_expr o f x u i ns) h = absurd (ground arith)
arg-IsConstant (sub_link t i q) h = absurd (ground arith)
arg-IsConstant (other i) h = absurd (ground arith)

arg-domains : (k c : ℕ) → arg_can_be_put_into_subquery (domains k (const c)) ≡ true
unfolding arg_can_be_put_into_subquery
arg-domains zero c = refl
arg-domains (suc k) c = arg-domains k c

args-AllConstant : (ns : Nodes) → args_are_constants ns ≡ true → AllConstant ns
unfolding args_are_constants
args-AllConstant nil h = tt
args-AllConstant (cons n ns) h =
    (arg-IsConstant n (ground arith), args-AllConstant ns (ground arith))

pub AllConstant-args : (ns : Nodes) → AllConstant ns → args_are_constants ns ≡ true
unfolding args_are_constants
AllConstant-args nil h = refl
AllConstant-args (cons n ns) ((k, c, e), h) =
    rw (ap arg_can_be_put_into_subquery e ∙ arg-domains k c) (AllConstant-args ns h)

-- The call that a request asks for, at the level of the query that is planned, can be rewritten.
abbrev pub Rewritable : Input → FuncExpr → Type 0
Rewritable input fcall =
    (query_level : ℕ) × (input ≡ simplify query_level fcall)
    × (query_level ≤ 1)
    × AllConstant (args fcall)

request_unique : (a b : Request) → some a ≡ some b → a ≡ b
request_unique a b e = cc

pub extract-some :
    (input : Input) (req : Request)
    → extract_simplify_request input ≡ some req
    → (input ≡ simplify req.query_level req.fcall) × (req.query_level ≤ 1)
unfolding extract_simplify_request
extract-some other_request req e = cc
extract-some (null_root f) req e = cc
extract-some (simplify level f) req e = elim (Bool-cases (ltb 1 level)) [
  | inl b ↦ let no_request : none ≡ some req = rw b at e in absurd (cc)
  | inr b ↦
      let same = request_unique (record { query_level = level; fcall = f }) req (rw b at e) in
      let low : level ≤ 1 = not-ltb→le 1 level b in
      (ap (λ r. simplify r.query_level r.fcall) same, omega (arith, ap (λ r. r.query_level) same))
]

pub extract-simplify :
    (level : ℕ) (f : FuncExpr)
    → level ≤ 1
    → extract_simplify_request (simplify level f) ≡ some (record { query_level = level; fcall = f })
unfolding extract_simplify_request
extract-simplify level f h = rw (le→not-ltb 1 level h) refl

simplify_call-some :
    (r : Option Request) (p p' : Planner) (n : Node)
    → simplify_call r p ≡ (some n, p')
    → (req : Request) × (r ≡ some req)
      × AllConstant (args req.fcall)
      × (n ≡ subquery req.fcall)
      × (p' ≡ record p { has_sub_links = true })
simplify_call-some none p p' n e = cc
simplify_call-some (some req) p p' n e = elim (Bool-cases (args_are_constants (args req.fcall))) [
  | inl b ↦
      let same : (some (subquery req.fcall), record p { has_sub_links = true }) ≡ (some n, p') =
        rw b at e in
      (
        req,
        refl,
        args-AllConstant (args req.fcall) b,
        cc (ap (λ x. x.0) same),
        sym (ap (λ x. x.1) same),
      )
  | inr b ↦
      let other_result : (none, p) ≡ (some n, p') = rw b at e in
      absurd (cc (ap (λ x. x.0) other_result))
]

-- A call is rewritten exactly when it is that of a simplify request for the outermost level and its
-- arguments are constants under domain coercions. The result is the subquery of the call, and the
-- query that is planned is marked to have one.
pub rewrite_fn_call_to_subquery-some_iff :
    (input : Input) (p p' : Planner) (n : Node)
    → (rewrite_fn_call_to_subquery input p ≡ (some n, p')) ↔ (
        (fcall : FuncExpr) × Rewritable input fcall
        × (n ≡ subquery fcall)
        × (p' ≡ record p { has_sub_links = true }))
unfolding rewrite_fn_call_to_subquery
rewrite_fn_call_to_subquery-some_iff input p p' n = (
  λ e.
      let (req, extracted, constants, node, marked) =
        simplify_call-some (extract_simplify_request input) p p' n e in
      let (is_simplify, low) = extract-some input req extracted in
      (req.fcall, (req.query_level, is_simplify, low, constants), node, marked),
  λ (fcall, (level, is_simplify, low, constants), node, marked).
      rw
        (
          is_simplify,
          extract-simplify level fcall low,
          AllConstant-args (args fcall) constants,
          node,
          marked,
        )
        refl,
)

simplify_call-none : (r : Option Request) (p p' : Planner) → simplify_call r p ≡ (none, p') → p' ≡ p
simplify_call-none none p p' e = sym (ap (λ x. x.1) e)
simplify_call-none (some req) p p' e = elim (Bool-cases (args_are_constants (args req.fcall))) [
  | inl b ↦
      let other_result : (some (subquery req.fcall), record p { has_sub_links = true })
          ≡ (none, p') =
        rw b at e in
      absurd (cc (ap (λ x. x.0) other_result))
  | inr b ↦ let same : (none, p) ≡ (none, p') = rw b at e in sym (ap (λ x. x.1) same)
]

-- A call that is not rewritten leaves the planner as it was.
pub rewrite_fn_call_to_subquery-none :
    (input : Input) (p p' : Planner) → rewrite_fn_call_to_subquery input p ≡ (none, p') → p' ≡ p
unfolding rewrite_fn_call_to_subquery
rewrite_fn_call_to_subquery-none input p p' e =
    simplify_call-none (extract_simplify_request input) p p' e
