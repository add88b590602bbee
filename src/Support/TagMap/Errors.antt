-- ===== src/Support/TagMap/Errors.antt =====
-- src/support.rs: when `tag_map_rewrite` raises an error.
use Prim.Native.String.{String}
use promscale_extension.Prelude.{
  ◌≡◌, ◌≢◌, ◌↔◌, ◌⊎◌, refl, sym, ap, ◌∙◌, true, false, Option, none, some, Bool-cases, Option-cases,
  inl, inr, Result, err, Fault, non_utf8_name, helper_not_regular, operator_not_found,
}
use promscale_extension.Support.Nodes.{Node, funcid, Planner, Input, Request}
use promscale_extension.Support.Catalog.{
  FuncDetailCode, func_detail_notfound, func_detail_normal, FuncDetail, Catalog,
}
use promscale_extension.Support.Subquery.{extract_simplify_request}
use promscale_extension.Support.Subquery.Laws.{extract-some, extract-simplify}
use promscale_extension.Support.TagMap.{
  Parts, match_call, with_helper, helper_detail, with_name, with_request, tag_map_rewrite,
}
use promscale_extension.Support.TagMap.Shape.{match_call-some_iff}
use promscale_extension.Support.TagMap.Outcomes.{no_error, contains_op, Candidate}

err_unique : (a b : Fault) → ◌≡◌ {A = Result (Option Node × Planner)} (err a) (err b) → a ≡ b
err_unique a b e = cc

module _ (c : Catalog) where
  open c use {get_func_name, is_utf8}

  -- The helper of that name is there and no regular function, or the operator `@>` is not there.
  abbrev pub Missing : FuncDetailCode → Fault → Type 0
  Missing code fault =
      ((code ≢ func_detail_normal) × (code ≢ func_detail_notfound) × (fault ≡ helper_not_regular))
      ⊎ ((code ≡ func_detail_normal) × (contains_op c ≡ none) × (fault ≡ operator_not_found))

  -- The name is not UTF-8, or one of the two is missing.
  abbrev pub Refused : String → Fault → Type 0
  Refused name fault =
      ((is_utf8 name ≡ false) × (fault ≡ non_utf8_name))
      ⊎ ((is_utf8 name ≡ true) × Missing (helper_detail c name).code fault)

  with_helper-err :
      (req : Request) (m : Parts) (helper : FuncDetail) (code : FuncDetailCode) (p : Planner)
      (fault : Fault)
      → with_helper c req m helper code p ≡ err fault
      → Missing code fault
  with_helper-err req m helper func_detail_notfound p fault e = absurd (cc)
  with_helper-err req m helper func_detail_normal p fault e =
      inr (elim (Option-cases (contains_op c)) [
        | inl b ↦ (refl, b, sym (err_unique operator_not_found fault (rw b at e)))
        | inr (o, b) ↦ absurd (no_error _ fault (rw b at e))
      ])
  with_helper-err req m helper _ p fault e = inl (λ n. cc, λ n. cc, cc)

  err-with_helper :
      (req : Request) (m : Parts) (helper : FuncDetail) (code : FuncDetailCode) (p : Planner)
      → code ≢ func_detail_normal
      → code ≢ func_detail_notfound
      → with_helper c req m helper code p ≡ err helper_not_regular
  err-with_helper req m helper func_detail_notfound p h k = absurd (k refl)
  err-with_helper req m helper func_detail_normal p h k = absurd (h refl)
  err-with_helper req m helper _ p h k = refl

  with_name-err :
      (req : Request) (m : Parts) (name : Option String) (p : Planner) (fault : Fault)
      → with_name c req m name p ≡ err fault
      → (s : String) × (name ≡ some s) × Refused s fault
  with_name-err req m none p fault e = absurd (no_error (none, p) fault e)
  with_name-err req m (some s) p fault e = elim (Bool-cases (is_utf8 s)) [
    | inl b ↦ (
      s,
      refl,
      inr (
        b,
        with_helper-err req m (helper_detail c s) (helper_detail c s).code p fault (rw b at e),
      ),
    )
    | inr b ↦ (s, refl, inl (b, sym (err_unique non_utf8_name fault (rw b at e))))
  ]

  Missing-err :
      (req : Request) (m : Parts) (helper : FuncDetail) (code : FuncDetailCode) (p : Planner)
      (fault : Fault)
      → Missing code fault
      → with_helper c req m helper code p ≡ err fault
  Missing-err req m helper code p fault (inl (h, k, e)) =
      err-with_helper req m helper code p h k ∙ ap err (sym e)
  Missing-err req m helper code p fault (inr (h, k, e)) = rw (h, k, e) refl

  Refused-err :
      (req : Request) (m : Parts) (s : String) (p : Planner) (fault : Fault)
      → Refused s fault
      → with_name c req m (some s) p ≡ err fault
  Refused-err req m s p fault (inl (b, e)) = rw (b, e) refl
  Refused-err req m s p fault (inr (b, h)) =
      rw b (Missing-err req m (helper_detail c s) (helper_detail c s).code p fault h)

  with_request-err :
      (r : Option Request) (p : Planner) (fault : Fault)
      → with_request c r p ≡ err fault
      → (req : Request) × (m : Parts) × (r ≡ some req)
        × (match_call c req.fcall ≡ some m)
        × (with_name c req m (get_func_name (funcid req.fcall)) p ≡ err fault)
  with_request-err none p fault e = absurd (no_error (none, p) fault e)
  with_request-err (some req) p fault e = elim (Option-cases (match_call c req.fcall)) [
    | inl b ↦ absurd (no_error (none, p) fault (rw b at e))
    | inr (m, b) ↦ (req, m, refl, b, rw b at e)
  ]

  -- `tag_map_rewrite` raises an error exactly on a candidate whose function's name is not UTF-8, whose
  -- helper is there and no regular function, or for which there is no operator `@>`.
  pub tag_map_rewrite-err_iff :
      (input : Input) (p : Planner) (fault : Fault)
      → (tag_map_rewrite c input p ≡ err fault) ↔ (
          (req : Request) × (m : Parts) × (name : String) × Candidate c input req m name
          × Refused name fault)
  unfolding tag_map_rewrite
  tag_map_rewrite-err_iff input p fault = (
    λ e.
        let (req, m, extracted, matched, e') =
          with_request-err (extract_simplify_request input) p fault e in
        let (is_simplify, low) = extract-some input req extracted in
        let (name, named, refused) =
          with_name-err req m (get_func_name (funcid req.fcall)) p fault e' in
        (
          req,
          m,
          name,
          (is_simplify, low, (match_call-some_iff c req.fcall m).0 matched, named),
          refused,
        ),
    λ (req, m, name, (is_simplify, low, call, named), refused).
        rw
          (
            is_simplify,
            extract-simplify req.query_level req.fcall low,
            (match_call-some_iff c req.fcall m).1 call,
            named,
          )
          (Refused-err req m name p fault refused),
  )
