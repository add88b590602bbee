-- ===== src/Support/TagMap/Shape.antt =====
-- src/support.rs: the expressions that `tag_map_rewrite` takes apart.
use Prim.Native.String.{String}
use text.Mathlib.Text.{◌==◌}
use text.Mathlib.TextEquality.{eq_iff}
use promscale_extension.Prelude.{
  ◌≡◌, ◌↔◌, refl, ap, Bool, Option, none, some, Bool-cases, inl, inr, some_unique,
}
use promscale_extension.Support.Nodes.{
  Oid, Node, op_expr, func_expr, FuncExpr, Nodes, funcid, args, head, tail,
}
use promscale_extension.Support.Catalog.{Catalog}
use promscale_extension.Support.TagMap.{
  denormalize_func_name, arrow_op_name, strip_type_coercion, ◌>>=◌, named, Parts, match_denormalize,
  match_arrow, match_call,
}

named-some :
    (expected : String) (name : Option String)
    → named expected name ≡ some tt
    → name ≡ some expected
named-some expected none e = cc
named-some expected (some name) e = elim (Bool-cases (name == expected)) [
  | inl b ↦ ap some ((eq_iff name expected).0 b)
  | inr b ↦ let refused : none ≡ some tt = rw b at e in absurd (cc)
]

module _ {A B : Type 0} where
  -- A bind that succeeds.
  bound :
      (m : Option A) (k : A → Option B) (b : B)
      → (m >>= k) ≡ some b
      → (a : A) × (m ≡ some a) × (k a ≡ some b)
  bound none k b e = cc
  bound (some a) k b e = (a, refl, e)

module _ (c : Catalog) where
  open c use {get_opname, get_func_name}

  -- A call of the function that denormalizes, with its first argument.
  abbrev pub DenormalizeOf : Node → Node → Type 0
  DenormalizeOf n arg =
      (g : FuncExpr) × (n ≡ func_expr g)
      × (get_func_name (funcid g) ≡ some denormalize_func_name)
      × (head (args g) ≡ some arg)

  -- The operator `->` on such a call, coerced or not, with its last operand as the key.
  abbrev pub ArrowOf : Node → Node → Node → Type 0
  ArrowOf n arg key =
      (o r : Oid) × (s : Bool) × (oc ic : Oid) × (ns : Nodes) × (left : Node) × (n
        ≡ op_expr o r s oc ic ns)
      × (get_opname o ≡ some arrow_op_name)
      × (head ns ≡ some left)
      × (tail ns ≡ some key)
      × DenormalizeOf (strip_type_coercion left) arg

  -- A call on such an operator, coerced or not, with its last argument as the value.
  abbrev pub CallOf : FuncExpr → Parts → Type 0
  CallOf f m =
      (left : Node) × (head (args f) ≡ some left)
      × (tail (args f) ≡ some m.value)
      × ArrowOf (strip_type_coercion left) m.denormalize_arg m.key

  match_denormalize-some : (n arg : Node) → match_denormalize c n ≡ some arg → DenormalizeOf n arg
  unfolding match_denormalize
  match_denormalize-some (func_expr g) arg e =
      let (u, name, first) =
        bound (named denormalize_func_name (get_func_name (funcid g))) _ arg e in
      (g, refl, named-some denormalize_func_name (get_func_name (funcid g)) name, first)
  match_denormalize-some _ arg e = absurd (cc)

  match_arrow-some : (n : Node) (m : Node × Node) → match_arrow c n ≡ some m → ArrowOf n m.0 m.1
  unfolding match_arrow
  match_arrow-some (op_expr o r s oc ic ns) m e =
      let (u, name, e1) = bound (named arrow_op_name (get_opname o)) _ m e in
      let (left, first, e2) = bound (head ns) _ m e1 in
      let (key, last, e3) = bound (tail ns) _ m e2 in
      let (arg, denormalized, e4) = bound (match_denormalize c (strip_type_coercion left)) _ m e3 in
      let same : (arg, key) ≡ m = some_unique (arg, key) m e4 in
      rw (← same) (
        o,
        r,
        s,
        oc,
        ic,
        ns,
        left,
        refl,
        named-some arrow_op_name (get_opname o) name,
        first,
        last,
        match_denormalize-some (strip_type_coercion left) arg denormalized,
      )
  match_arrow-some _ m e = absurd (cc)

  some-match_denormalize : (n arg : Node) → DenormalizeOf n arg → match_denormalize c n ≡ some arg
  unfolding match_denormalize
  some-match_denormalize n arg (g, call, name, first) = rw (call, name, first) refl

  some-match_arrow : (n arg key : Node) → ArrowOf n arg key → match_arrow c n ≡ some (arg, key)
  unfolding match_arrow
  some-match_arrow n arg key (o, r, s, oc, ic, ns, left, op, name, first, last, d) =
      rw (op, name, first, last, some-match_denormalize (strip_type_coercion left) arg d) refl

  -- `match_call` finds the parts of exactly these calls.
  pub match_call-some_iff : (f : FuncExpr) (m : Parts) → (match_call c f ≡ some m) ↔ CallOf f m
  unfolding match_call
  match_call-some_iff f m = (
    λ e.
        let (left, first, e1) = bound (head (args f)) _ m e in
        let (value, last, e2) = bound (tail (args f)) _ m e1 in
        let (a, arrow, e3) = bound (match_arrow c (strip_type_coercion left)) _ m e2 in
        let same = some_unique (record { denormalize_arg = a.0; key = a.1; value = value }) m e3 in
        rw (← same) (left, first, last, match_arrow-some (strip_type_coercion left) a arrow),
    λ (left, first, last, arrow).
        rw (first, last, some-match_arrow (strip_type_coercion left) m.denormalize_arg m.key arrow)
          refl,
  )
