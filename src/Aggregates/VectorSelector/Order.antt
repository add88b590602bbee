-- ===== src/Aggregates/VectorSelector/Order.antt =====
-- The `vector_selector` aggregate on the same rows in two orders, where no two samples are taken at
-- one time.
use mathlib.Core.List.{Nodup, Perm, Permᴰ, Nodup-cons, mem-cons_self}
use mathlib.Core.List.Perm
use mathlib.Core.List.Permᴰ
use mathlib.Core.Logic.{∥∥₁_elim}
use native.Mathlib.Bridge.{le_prop}
use promscale_extension.Prelude.{
  ℕ, zero, suc, ◌≡◌, ◌≢◌, refl, sym, subst, ap, ap₂, ◌∙◌, Bool, Option, none, some, List, [], ◌∷◌,
  map, arith, ok, All, if◌then◌else◌,
}
use promscale_extension.Memory.{FunctionCallInfo}
use promscale_extension.Aggregates.VectorSelector.Entry.{vector_selector_final}
use promscale_extension.Aggregates.VectorSelector.Query.{Query, IsValid, InRange}
use promscale_extension.Aggregates.VectorSelector.Runs.{aggregate_rows, final-aggregate_rows}
use promscale_extension.Prelude.Int.{ℤ, pos, eq_of_parts, ◌+ℤ◌, ◌-ℤ◌}
use promscale_extension.Aggregates.VectorSelector.{Sample, VectorSelector, newer}
use promscale_extension.Aggregates.VectorSelector.Latest.{
  latest, latest-cons, newer_assoc, between_closed,
}
use promscale_extension.Aggregates.VectorSelector.Instant.{instants, unless_stale}

abbrev pub times : List Sample → List ℤ
times = map (λ x. x.0)

newer_comm_of_ne : (x y : Sample) → x.0 ≢ y.0 → newer (some x) (some y) ≡ newer (some y) (some x)
newer_comm_of_ne x y h = ground (arith, eq_of_parts x.0 y.0)

module _ (p : ℤ → Bool) where
  passed : Sample → Option Sample
  passed x = if p x.0 then some x else none

  passed_comm :
      (x y : Sample) → x.0 ≢ y.0 → newer (passed x) (passed y) ≡ newer (passed y) (passed x)
  unfolding passed
  passed_comm x y h = ground (arith, newer_comm_of_ne x y h)

  latest-swap :
      (x y : Sample) (l : List Sample) → x.0 ≢ y.0 → latest p (x ∷ y ∷ l) ≡ latest p (y ∷ x ∷ l)
  unfolding passed
  latest-swap x y l h =
      latest-cons p x (y ∷ l)
      ∙ ap (newer (passed x)) (latest-cons p y l)
      ∙ sym (newer_assoc (passed x) (passed y) (latest p l))
      ∙ ap (λ o. newer o (latest p l)) (passed_comm x y h)
      ∙ newer_assoc (passed y) (passed x) (latest p l)
      ∙ ap (newer (passed y)) (sym (latest-cons p x l))
      ∙ sym (latest-cons p y (x ∷ l))

  distinct_heads : (x y : Sample) (l : List Sample) → Nodup (times (x ∷ y ∷ l)) → x.0 ≢ y.0
  distinct_heads x y l d e = (Nodup-cons.0 d).0 (rw e mem-cons_self)

  latest-Permᴰ : {xs ys : List Sample} → Permᴰ xs ys → Nodup (times xs) → latest p xs ≡ latest p ys
  unfolding passed
  latest-Permᴰ Permᴰ.nil d = refl
  latest-Permᴰ (Permᴰ.cons {a = a} {b = b} {l₁ = l₁} {l₂ = l₂} e q) d =
      latest-cons p a l₁
      ∙ ap₂ (λ x o. newer (passed x) o) e (latest-Permᴰ q (Nodup-cons.0 d).1)
      ∙ sym (latest-cons p b l₂)
  latest-Permᴰ (Permᴰ.swap {a = a} {b = b} {a' = a'} {b' = b'} {l = l} e f) d =
      latest-swap a b l (distinct_heads a b l d) ∙ ap₂ (λ x y. latest p (x ∷ y ∷ l)) f e
  latest-Permᴰ (Permᴰ.trans q r) d =
      latest-Permᴰ q d ∙ latest-Permᴰ r (Perm.nodup ∣ Permᴰ.map (λ x. x.0) q ∣₁ d)

Sample-option-set : IsSet (Option Sample)
Sample-option-set = hlevel

latest-Perm :
    (p : ℤ → Bool) {xs ys : List Sample} → Perm xs ys → Nodup (times xs) → latest p xs ≡ latest p ys
latest-Perm p h d = ∥∥₁_elim h (Sample-option-set _ _) (λ q. latest-Permᴰ p q d)

pub instants-Perm :
    (lookback w n : ℕ) (t : ℤ) {xs ys : List Sample}
    → Perm xs ys
    → Nodup (times xs)
    → instants lookback w n t xs ≡ instants lookback w n t ys
unfolding instants
instants-Perm lookback w zero t h d = refl
instants-Perm lookback w (suc n) t h d =
    ap₂ ◌∷◌ (ap unless_stale (latest-Perm (between_closed (t -ℤ pos lookback) t) h d))
      (instants-Perm lookback w n (t +ℤ pos w) h d)

module _ (q : Query) where
  abbrev RowInRange : Sample → Type 0
  RowInRange y = InRange q y.0

  rows_prop : (xs : List Sample) → IsProp (All RowInRange xs)
  rows_prop [] = hlevel
  rows_prop (x ∷ xs) = λ a b. ap₂ (λ r rs. (r, rs)) (in_range_prop a.0 b.0) (rows_prop xs a.1 b.1)
    where
      in_range_prop : IsProp (InRange q x.0)
      in_range_prop = hlevel (le_prop)

  All-Permᴰ : {xs ys : List Sample} → Permᴰ xs ys → All RowInRange xs → All RowInRange ys
  All-Permᴰ Permᴰ.nil r = tt
  All-Permᴰ (Permᴰ.cons e p) r = (subst RowInRange e r.0, All-Permᴰ p r.1)
  All-Permᴰ (Permᴰ.swap e f) r = (subst RowInRange f r.1.0, (subst RowInRange e r.0, r.1.1))
  All-Permᴰ (Permᴰ.trans p p') r = All-Permᴰ p' (All-Permᴰ p r)

  pub All-Perm : {xs ys : List Sample} → Perm xs ys → All RowInRange xs → All RowInRange ys
  All-Perm {ys = ys} h r = ∥∥₁_elim h (rows_prop ys) (λ p. All-Permᴰ p r)

-- For a valid query and rows in range of which no two are taken at one time, the rows may come in
-- any order: the aggregate succeeds on both orders, with one result.
pub final-Perm :
    (q : Query)
    → IsValid q
    → (fcinfo : FunctionCallInfo) (mctx : ℕ) → fcinfo.agg_check_call_context ≡ some mctx
    → (row row' : Sample) (rows rows' : List Sample) (current : ℕ)
    → All (λ y. InRange q y.0) (row ∷ rows)
    → Perm (row ∷ rows) (row' ∷ rows')
    → Nodup (times (row ∷ rows))
    → (s s' : Option VectorSelector) × (aggregate_rows q fcinfo none (row ∷ rows) current
        ≡ (ok s, current))
      × (aggregate_rows q fcinfo none (row' ∷ rows') current ≡ (ok s', current))
      × (vector_selector_final s ≡ vector_selector_final s')
final-Perm q v fcinfo mctx inside row row' rows rows' current r h d =
    let (s, runs, result) = final-aggregate_rows q v fcinfo mctx inside row rows current r in
    let (s', runs', result') =
      final-aggregate_rows q v fcinfo mctx inside row' rows' current (All-Perm q h r) in
    (s, s', runs, runs', result ∙ ap some (instants-Perm _ _ _ _ h d) ∙ sym result')
