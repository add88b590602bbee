-- ===== src/Support/TagMap/Outcomes.antt =====
-- src/support.rs: when `tag_map_rewrite` rewrites a call.
use Prim.Native.String.{String}
use promscale_extension.Prelude.{
  suc, ◌≤◌, ◌≡◌, ◌≢◌, ◌↔◌, refl, sym, ap, true, Option, none, some, Bool-cases, Option-cases, inl,
  inr, Result, ok, err, ok_unique, some_unique, ap₂, Fault, non_utf8_name,
}
use promscale_extension.Support.Nodes.{Oid, Node, funcid, Planner, Input, simplify, Request}
use promscale_extension.Support.Catalog.{
  FuncDetailCode, func_detail_notfound, func_detail_normal, FuncDetail, Catalog,
}
use promscale_extension.Support.Subquery.{extract_simplify_request}
use promscale_extension.Support.Subquery.Laws.{extract-some, extract-simplify}
use promscale_extension.Support.TagMap.{
  Parts, contains_op_path, match_call, build, with_operator, with_helper, helper_detail, with_name,
  with_request, tag_map_rewrite,
}
use promscale_extension.Support.TagMap.Shape.{CallOf, match_call-some_iff}

left_alone :
    (p p' : Planner) (n : Node)
    → ◌≢◌ {A = Result (Option Node × Planner)} (ok (none, p)) (ok (some n, p'))
left_alone p p' n e = cc (ap (λ x. x.0) (ok_unique (none, p) (some n, p') e))

pub no_error :
    (a : Option Node × Planner) (b : Fault)
    → ◌≢◌ {A = Result (Option Node × Planner)} (ok a) (err b)
no_error a b e = cc

module _ (c : Catalog) where
  open c use {get_func_name, is_utf8, lookup_oper_name, jsonb_oid}

  abbrev pub contains_op : Option Oid
  contains_op = lookup_oper_name contains_op_path jsonb_oid jsonb_oid

  -- The call is that of a simplify request for the outermost level, on an operator of the denormalized
  -- map, and the function behind the operator has a name.
  abbrev pub Candidate : Input → Request → Parts → String → Type 0
  Candidate input req m name =
      (input ≡ simplify req.query_level req.fcall)
      × (req.query_level ≤ 1)
      × CallOf c req.fcall m
      × (get_func_name (funcid req.fcall) ≡ some name)

  with_operator-some :
      (req : Request) (m : Parts) (helper : FuncDetail) (op : Option Oid) (p p' : Planner)
      (n : Node)
      → with_operator c req m helper op p ≡ ok (some n, p')
      → (o : Oid) × (op ≡ some o) × ((n, p') ≡ build c req m helper o p)
  with_operator-some req m helper none p p' n e = cc
  with_operator-some req m helper (some o) p p' n e =
      let same =
        ok_unique (some (build c req m helper o p).0, (build c req m helper o p).1) (some n, p')
          e in
      (
        o,
        refl,
        ap₂ (λ a b. (a, b)) (sym (some_unique (build c req m helper o p).0 n (ap (λ x. x.0) same)))
            (sym (ap (λ x. x.1) same)),
      )

  with_helper-some :
      (req : Request) (m : Parts) (helper : FuncDetail) (code : FuncDetailCode) (p p' : Planner)
      (n : Node)
      → with_helper c req m helper code p ≡ ok (some n, p')
      → (code ≡ func_detail_normal)
        × ((o : Oid) × (contains_op ≡ some o) × ((n, p') ≡ build c req m helper o p))
  with_helper-some req m helper func_detail_notfound p p' n e =
      absurd (left_alone (record p { warnings = suc p.warnings }) p' n e)
  with_helper-some req m helper func_detail_normal p p' n e =
      (refl, with_operator-some req m helper contains_op p p' n e)
  with_helper-some req m helper _ p p' n e = absurd (cc)

  with_name-some :
      (req : Request) (m : Parts) (name : Option String) (p p' : Planner) (n : Node)
      → with_name c req m name p ≡ ok (some n, p')
      → (s : String) × (o : Oid) × (name ≡ some s)
        × (is_utf8 s ≡ true)
        × ((helper_detail c s).code ≡ func_detail_normal)
        × (contains_op ≡ some o)
        × ((n, p') ≡ build c req m (helper_detail c s) o p)
  with_name-some req m none p p' n e = absurd (left_alone p p' n e)
  with_name-some req m (some s) p p' n e = elim (Bool-cases (is_utf8 s)) [
    | inl b ↦
        let (normal, (o, op, built)) =
          with_helper-some req m (helper_detail c s) (helper_detail c s).code p p' n (rw b at e) in
        (s, o, refl, b, normal, op, built)
    | inr b ↦ absurd (no_error (some n, p') non_utf8_name (sym (rw b at e)))
  ]

  with_request-some :
      (r : Option Request) (p p' : Planner) (n : Node)
      → with_request c r p ≡ ok (some n, p')
      → (req : Request) × (m : Parts) × (r ≡ some req)
        × (match_call c req.fcall ≡ some m)
        × (with_name c req m (get_func_name (funcid req.fcall)) p ≡ ok (some n, p'))
  with_request-some none p p' n e = absurd (left_alone p p' n e)
  with_request-some (some req) p p' n e = elim (Option-cases (match_call c req.fcall)) [
    | inl b ↦ absurd (left_alone p p' n (rw b at e))
    | inr (m, b) ↦ (req, m, refl, b, rw b at e)
  ]

  -- `tag_map_rewrite` rewrites a call exactly when it is a candidate, the name of its function is UTF-8,
  -- the helper of that name is a regular function and the operator `@>` is found. The result and the
  -- planner are those that `build` makes.
  pub tag_map_rewrite-some_iff :
      (input : Input) (p p' : Planner) (n : Node)
      → (tag_map_rewrite c input p ≡ ok (some n, p')) ↔ (
          (req : Request) × (m : Parts) × (name : String) × (o : Oid) × Candidate input req m name
          × (is_utf8 name ≡ true)
          × ((helper_detail c name).code ≡ func_detail_normal)
          × (contains_op ≡ some o)
          × ((n, p') ≡ build c req m (helper_detail c name) o p))
  unfolding tag_map_rewrite
  tag_map_rewrite-some_iff input p p' n = (
    λ e.
        let (req, m, extracted, matched, e') =
          with_request-some (extract_simplify_request input) p p' n e in
        let (is_simplify, low) = extract-some input req extracted in
        let (name, o, named, utf8, normal, op, built) =
          with_name-some req m (get_func_name (funcid req.fcall)) p p' n e' in
        (
          req,
          m,
          name,
          o,
          (is_simplify, low, (match_call-some_iff c req.fcall m).0 matched, named),
          utf8,
          normal,
          op,
          built,
        ),
    λ (req, m, name, o, (is_simplify, low, call, named), utf8, normal, op, built).
        rw
          (
            is_simplify,
            extract-simplify req.query_level req.fcall low,
            (match_call-some_iff c req.fcall m).1 call,
            named,
            utf8,
            normal,
            op,
          )
          (ap (λ (x : Node × Planner). ok (some x.0, x.1)) (sym built)),
  )
