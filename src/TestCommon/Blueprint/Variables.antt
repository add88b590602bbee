-- ===== src/TestCommon/Blueprint/Variables.antt =====
-- test-common/src/postgres_container/blueprint.rs: the maps of volumes and of environment variables.
use Prim.Native.String.{String}
use text.Mathlib.Text.{◌==◌}
use text.Mathlib.TextEquality.{eq_iff}
use promscale_extension.Prelude.{
  ◌≡◌, ◌↔◌, ◌⊎◌, inl, inr, refl, sym, ap, ap₂, ◌∙◌, true, false, Bool-cases, none, some,
  some_unique, [], ◌∷◌, if◌then◌else◌,
}
use promscale_extension.TestCommon.Blueprint.{Entries, insert_entry, get_entry, push}

same_text : (k : String) → (k == k) ≡ true
same_text k = (eq_iff k k).1 refl

-- A look-up after an insertion.
pub get_entry-insert_same : (k v : String) (m : Entries) → get_entry k (insert_entry k v m) ≡ some v
unfolding get_entry insert_entry
get_entry-insert_same k v [] = rw (same_text k) refl
get_entry-insert_same k v ((k', v') ∷ m) = elim (Bool-cases (k' == k)) [
  | inl b ↦ rw (b, same_text k) refl
  | inr b ↦ rw (b, b) (get_entry-insert_same k v m)
]

pub get_entry-insert_other :
    (j k v : String) (m : Entries)
    → (k == j) ≡ false
    → get_entry j (insert_entry k v m) ≡ get_entry j m
unfolding get_entry insert_entry
get_entry-insert_other j k v [] h = rw h refl
get_entry-insert_other j k v ((k', v') ∷ m) h = elim (Bool-cases (k' == k)) [
  | inl b ↦ let same : k' ≡ k = (eq_iff k' k).0 b in rw (b, h) (sym (rw (same, h) refl))
  | inr b ↦
      rw b (ap (λ found. if k' == j then some v' else found) (get_entry-insert_other j k v m h))
]

-- No key stands twice.
abbrev pub Distinct : Entries → Type 0
Distinct [] = Unit
Distinct ((k, v) ∷ m) = (get_entry k m ≡ none) × Distinct m

Distinct-head :
    (k v k' : String) (m : Entries)
    → (k' == k) ≡ false
    → get_entry k' m ≡ none
    → get_entry k' (insert_entry k v m) ≡ none
Distinct-head k v k' m h e = get_entry-insert_other k' k v m (different k' k h) ∙ e
  where
    different : (a b : String) → (a == b) ≡ false → (b == a) ≡ false
    different a b h = elim (Bool-cases (b == a)) [
      | inl e ↦
          let clash : true ≡ false = sym ((eq_iff a b).1 (sym ((eq_iff b a).0 e))) ∙ h in
          absurd (cc)
      | inr e ↦ e
    ]

pub insert_entry-Distinct :
    (k v : String) (m : Entries) → Distinct m → Distinct (insert_entry k v m)
unfolding get_entry insert_entry
insert_entry-Distinct k v [] h = (refl, tt)
insert_entry-Distinct k v ((k', v') ∷ m) (new, h) = elim (Bool-cases (k' == k)) [
  | inl b ↦ rw b (ap (λ j. get_entry j m) (sym ((eq_iff k' k).0 b)) ∙ new, h)
  | inr b ↦ rw b (Distinct-head k v k' m b new, insert_entry-Distinct k v m h)
]

-- An entry stands in a list.
abbrev pub Has : String × String → Entries → Type 0
Has e [] = ⊥
Has e (x ∷ m) = (x ≡ e) ⊎ Has e m

Has-get_entry : (k v : String) (m : Entries) → get_entry k m ≡ some v → Has (k, v) m
unfolding get_entry
Has-get_entry k v [] e = cc
Has-get_entry k v ((k', v') ∷ m) e = elim (Bool-cases (k' == k)) [
  | inl b ↦ inl (ap₂ (λ x y. (x, y)) ((eq_iff k' k).0 b) (some_unique v' v (rw b at e)))
  | inr b ↦ inr (Has-get_entry k v m (rw b at e))
]

get_entry-Has : (k v : String) (m : Entries) → Distinct m → Has (k, v) m → get_entry k m ≡ some v
unfolding get_entry
get_entry-Has k v [] h e = absurd e
get_entry-Has k v ((k', v') ∷ m) (new, h) (inl e) =
    let same : (k' == k) ≡ true = (eq_iff k' k).1 (ap (λ x. x.0) e) in
    rw same (ap some (ap (λ x. x.1) e))
get_entry-Has k v ((k', v') ∷ m) (new, h) (inr e) = elim (Bool-cases (k' == k)) [
  | inl b ↦
      let clash : none ≡ some v =
        sym new ∙ ap (λ j. get_entry j m) ((eq_iff k' k).0 b) ∙ get_entry-Has k v m h e in
      absurd (cc)
  | inr b ↦ rw b (get_entry-Has k v m h e)
]

push-Has :
    (e : String × String) (entries m : Entries) → Has e (push entries m) ↔ (Has e entries ⊎ Has e m)
push-Has e entries [] = (λ h. inl h, λ h. elim h [ inl h ↦ h | inr h ↦ absurd h ])
push-Has e entries (x ∷ m) =
    let (from, to) = push-Has e (x ∷ entries) m in
    (
      λ h. elim (from h) [
        | inl h ↦ elim h [ inl h ↦ inr (inl h) | inr h ↦ inl h ]
        | inr h ↦ inr (inr h)
      ],
      λ h. elim h [
        | inl h ↦ to (inl (inr h))
        | inr h ↦ elim h [ inl h ↦ to (inl (inl h)) | inr h ↦ to (inr h) ]
      ],
    )

-- The calls that are made for a map are those of its entries.
pub push-get_entry :
    (k v : String) (m : Entries) → Distinct m → Has (k, v) (push [] m) ↔ (get_entry k m ≡ some v)
push-get_entry k v m h =
    let (from, to) = push-Has (k, v) [] m in
    (
      λ e. elim (from e) [ inl e ↦ absurd e | inr e ↦ get_entry-Has k v m h e ],
      λ e. to (inr (Has-get_entry k v m e)),
    )
