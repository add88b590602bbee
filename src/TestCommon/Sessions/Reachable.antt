-- ===== src/TestCommon/Sessions/Reachable.antt =====
-- test-common/src/local_postgres_instance.rs: what holds in every state that the tests reach.
use Prim.Native.String.{String}
use text.Mathlib.Text.{◌==◌}
use text.Mathlib.TextEquality.{eq_iff}
use promscale_extension.Prelude.{
  ℕ, ◌+◌, ◌<◌, ◌≡◌, refl, sym, ap, subst, ◌↔◌, Bool, true, false, ◌&&◌, List, [], ◌∷◌, lt→ltb,
  ltb→lt, not-ltb→le, arith, if◌then◌else◌, ok, err, ok_unique, Bool-cases, inl, inr,
  database_error,
}
use promscale_extension.TestCommon.Sessions.{
  count, has, remove, World, generate_random_db_name, temporary_local_db, connect, close,
  drop_instance, Event, created, connected, closed, dropped, step, Allowed, Run, done, next, start,
}

abbrev one_if : Bool → ℕ
one_if b = if b then 1 else 0

count-cons : (j k : String) (xs : List String) → count j (k ∷ xs) ≡ one_if (k == j) + count j xs
unfolding count
count-cons j k xs = ground arith

count-remove :
    (j k : String) (xs : List String)
    → 0 < count k xs
    → one_if (k == j) + count j (remove k xs) ≡ count j xs
unfolding count remove
count-remove j k [] h = omega arith
count-remove j k (x ∷ xs) h = elim (Bool-cases (x == k)) [
  | inl e ↦
      let same : (k == j) ≡ (x == j) = ap (λ w. w == j) (sym ((eq_iff x k).0 e)) in
      rw (e, same) (ground arith)
  | inr e ↦
      let later : 0 < count k xs = rw e at h in rw e (ground (arith, count-remove j k xs later))
]

-- The databases of the server are those that were there, and one for each instance that is live; and
-- only databases of live instances are connected to.
pub record Invariant (before : List String) (w : World) : Type 0 where
  pub owned : (k : String) → count k w.databases ≡ count k w.instances + count k before
  pub attached : (k : String) → 0 < count k w.connections → 0 < count k w.instances

start-Invariant : (before : List String) → Invariant before (start before)
unfolding count
start-Invariant before = record { owned = λ k. omega arith; attached = λ k h. omega arith }

has-of : (k : String) (xs : List String) → has k xs ≡ true → 0 < count k xs
has-of k xs h = ltb→lt _ _ h

if-ok :
    (b : Bool) (x w : World)
    → (if b then ok x else err database_error) ≡ ok w
    → (b ≡ true) × (x ≡ w)
if-ok true x w e = (refl, ok_unique x w e)
if-ok false x w e = cc

if-not-ok :
    (b : Bool) (x w : World)
    → (if b then err database_error else ok x) ≡ ok w
    → (b ≡ false) × (x ≡ w)
if-not-ok true x w e = cc
if-not-ok false x w e = (refl, ok_unique x w e)

both : (a b : Bool) → (a && b) ≡ true → a ≡ true
both true b h = refl
both false b h = cc

-- Of names that differ, one is counted as before.
count-cons_ne : (j k : String) (xs : List String) → (k == j) ≡ false → count j (k ∷ xs) ≡ count j xs
unfolding count
count-cons_ne j k xs e = rw e refl

count-remove_ne :
    (j k : String) (xs : List String)
    → 0 < count k xs
    → (k == j) ≡ false
    → count j (remove k xs) ≡ count j xs
count-remove_ne j k xs h e =
    let kept : one_if false + count j (remove k xs) ≡ count j xs =
      subst (λ b. one_if b + count j (remove k xs) ≡ count j xs) e (count-remove j k xs h) in
    omega (arith, kept)

module _ (before : List String) (w : World) (i : Invariant before w) where
  created-Invariant :
      (k : String)
      → Invariant before (record w { databases = k ∷ w.databases; instances = k ∷ w.instances })
  created-Invariant k = record {
    owned = λ j. omega (arith, count-cons j k w.databases, count-cons j k w.instances, i.owned j);
    attached = λ j h. omega (arith, count-cons j k w.instances, i.attached j h);
  }

  connected-Invariant :
      (k : String)
      → has k w.instances ≡ true
      → Invariant before (record w { connections = k ∷ w.connections })
  connected-Invariant k a = record {
    owned = i.owned;
    attached = λ j h. elim (Bool-cases (k == j)) [
      | inl e ↦ subst (λ n. 0 < count n w.instances) ((eq_iff k j).0 e) (has-of k w.instances a)
      | inr e ↦
          let old : 0 < count j w.connections = rw (count-cons_ne j k w.connections e) at h in
          i.attached j old
    ];
  }

  closed-Invariant :
      (k : String)
      → has k w.connections ≡ true
      → Invariant before (record w { connections = remove k w.connections })
  closed-Invariant k a = record {
    owned = i.owned;
    attached = λ j h.
        i.attached j (omega (arith, count-remove j k w.connections (has-of k w.connections a)));
  }

  dropped-Invariant :
      (k : String)
      → has k w.databases ≡ true
      → has k w.instances ≡ true
      → has k w.connections ≡ false
      → Invariant before
          (record w { databases = remove k w.databases; instances = remove k w.instances })
  dropped-Invariant k d a c = record {
    owned = λ j. omega (
      arith,
      count-remove j k w.databases (has-of k w.databases d),
      count-remove j k w.instances (has-of k w.instances a),
      i.owned j,
    );
    attached = λ j h. elim (Bool-cases (k == j)) [
      | inl e ↦
          let mine : 0 < count k w.connections =
            subst (λ n. 0 < count n w.connections) (sym ((eq_iff k j).0 e)) h in
          let none_left = not-ltb→le 0 (count k w.connections) c in absurd (omega arith)
      | inr e ↦
          omega (arith, count-remove_ne j k w.instances (has-of k w.instances a) e, i.attached j h)
    ];
  }

  -- A step that is allowed and succeeds keeps the invariant.
  step-Invariant : (e : Event) (w' : World) → Allowed e w → step e w ≡ ok w' → Invariant before w'
  unfolding temporary_local_db connect close drop_instance
  step-Invariant (created number) w' a e =
      let (_, same) = if-not-ok _ _ w' e in
      subst (Invariant before) same (created-Invariant (generate_random_db_name number))
  step-Invariant (connected k) w' a e =
      let (_, same) = if-ok _ _ w' e in subst (Invariant before) same (connected-Invariant k a)
  step-Invariant (closed k) w' a e =
      subst (Invariant before) (ok_unique _ w' e) (closed-Invariant k a)
  step-Invariant (dropped k) w' a e =
      let (there, same) = if-ok _ _ w' e in
      subst (Invariant before) same (dropped-Invariant k (both _ _ there) a.0 a.1)

-- What is not done by a test whose random name is taken.
abbrev pub Taken : Event → World → Type 0
Taken (created number) w = has (generate_random_db_name number) w.databases ≡ true
Taken (connected k) w = ◌≡◌ {A = Bool} true false
Taken (closed k) w = ◌≡◌ {A = Bool} true false
Taken (dropped k) w = ◌≡◌ {A = Bool} true false

module _ (before : List String) (w : World) (i : Invariant before w) where
  here : (k : String) → has k w.instances ≡ true → has k w.databases ≡ true
  here k h = lt→ltb _ _ (omega (arith, i.owned k, has-of k w.instances h))

  step-err : (e : Event) → Allowed e w → (step e w ≡ err database_error) ↔ Taken e w
  unfolding temporary_local_db connect close drop_instance
  step-err (created number) a = (
    λ e. elim (Bool-cases (has (generate_random_db_name number) w.databases)) [
      | inl t ↦ t
      | inr f ↦ let bad = rw f at e in absurd (cc)
    ],
    λ t. rw t refl,
  )
  step-err (connected k) a = (λ e. let bad = rw (here k a) at e in absurd (cc), λ t. absurd (cc))
  step-err (closed k) a = (λ e. absurd (cc), λ t. absurd (cc))
  step-err (dropped k) a =
      (λ e. let bad = rw (here k a.0, a.1) at e in absurd (cc), λ t. absurd (cc))

Run-Invariant :
    (before : List String) {w w' : World} → Invariant before w → Run w w' → Invariant before w'
Run-Invariant before i done = i
Run-Invariant before i (next e a s r) = Run-Invariant before (step-Invariant before _ i e _ a s) r

-- In every state that the tests reach, in whatever order they take their steps, the databases of the
-- server are those that were there before and one for each live instance, and only databases of live
-- instances are connected to. A step that the lifetimes allow fails exactly if it creates a database of
-- a name that is taken.
pub Run-step-err_iff :
    (before : List String) (w : World) (e : Event)
    → Run (start before) w
    → Allowed e w
    → Invariant before w × ((step e w ≡ err database_error) ↔ Taken e w)
Run-step-err_iff before w e r a =
    let i = Run-Invariant before (start-Invariant before) r in (i, step-err before w i e a)
