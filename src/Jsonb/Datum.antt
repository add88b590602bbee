-- ===== src/Jsonb/Datum.antt =====
-- src/iterable_jsonb.rs: `Jsonb` as the owner of a de-TOASTed datum, and what it frees. PostgreSQL's
-- allocator and its de-TOASTing are a parameter.
use promscale_extension.Prelude.{
  ℕ, ◌≡◌, ◌≢◌, ◌⊎◌, ◌↔◌, refl, sym, subst, Bool, true, false, not, Option, none, some, inl, inr,
  arith, Result, ok, err, ◌==◌, if◌then◌else◌, null_datum,
}

-- A pointer is a number; an allocation is made in the memory context that is given first.
pub record Allocator : Type 1 where
  pub Heap : Type 0
  pub pg_detoast_datum : ℕ → ℕ → Heap → ℕ × Heap
  pub pg_detoast_datum_copy : ℕ → ℕ → Heap → ℕ × Heap
  pub pfree : ℕ → Heap → Result Heap
  -- The memory context that a chunk was allocated in.
  pub context_of : ℕ → Heap → Option ℕ

pub record Jsonb : Type 0 where
  pub pg_jsonb : ℕ
  pub needs_drop : Bool

module _ (a : Allocator) where
  open a use {Heap, pg_detoast_datum, pg_detoast_datum_copy, pfree, context_of}

  abbrev pub detoasted : ℕ → ℕ × Heap → Jsonb × Heap
  detoasted varlena (pg_jsonb, heap) =
      (record { pg_jsonb = pg_jsonb; needs_drop = not (pg_jsonb == varlena) }, heap)

  abbrev pub copied : ℕ × Heap → Jsonb × Heap
  copied (pg_jsonb, heap) = (record { pg_jsonb = pg_jsonb; needs_drop = true }, heap)

  abbrev pub some_jsonb : Jsonb × Heap → Result (Option Jsonb × Heap)
  some_jsonb (jsonb, heap) = ok (some jsonb, heap)

  -- The datum is `none` where it is the null pointer. `current` is the current memory context.
  unfoldable pub from_polymorphic_datum :
      (current : ℕ) → Option ℕ → (is_null : Bool) → Heap → Result (Option Jsonb × Heap)
  from_polymorphic_datum current datum true heap = ok (none, heap)
  from_polymorphic_datum current none false heap = err null_datum
  from_polymorphic_datum current (some varlena) false heap =
      some_jsonb (detoasted varlena (pg_detoast_datum current varlena heap))

  unfoldable pub from_datum_in_memory_context :
      (memory_context : ℕ) → Option ℕ → (is_null : Bool) → Heap → Result (Option Jsonb × Heap)
  from_datum_in_memory_context memory_context datum true heap = ok (none, heap)
  from_datum_in_memory_context memory_context none false heap = err null_datum
  from_datum_in_memory_context memory_context (some varlena) false heap =
      some_jsonb (copied (pg_detoast_datum_copy memory_context varlena heap))

  unfoldable pub drop : Jsonb → Heap → Result Heap
  drop jsonb heap = if jsonb.needs_drop then pfree jsonb.pg_jsonb heap else ok heap

  -- A new chunk in the context, of which the heap is as it was once it is freed.
  abbrev pub IsCopy : ℕ → ℕ → Heap → ℕ × Heap → Type 0
  IsCopy context varlena heap (q, heap') =
      (q ≢ varlena) × (pfree q heap' ≡ ok heap) × (context_of q heap' ≡ some context)

  -- De-TOASTing returns the datum itself or a copy.
  abbrev pub Detoasts : Type 0
  Detoasts =
      (context varlena : ℕ) (heap : Heap)
      → ((pg_detoast_datum context varlena heap ≡ (varlena, heap))
          ⊎ IsCopy context varlena heap (pg_detoast_datum context varlena heap))
        × IsCopy context varlena heap (pg_detoast_datum_copy context varlena heap)

  -- What `Jsonb` owns: it is dropped when the value goes out of scope.
  abbrev pub Owned : ℕ → Heap → Jsonb × Heap → Type 0
  Owned context heap (jsonb, heap') =
      (drop jsonb heap' ≡ ok heap)
      × (jsonb.needs_drop ≡ true → context_of jsonb.pg_jsonb heap' ≡ some context)

  different : (p q : ℕ) → q ≢ p → (q == p) ≡ false
  different p q h = ground arith

  same_chunk : (p : ℕ) → (p == p) ≡ true
  same_chunk p = ground arith

  same-Owned :
      (context varlena : ℕ) (heap : Heap)
      → Owned context heap (detoasted varlena (varlena, heap))
        × (((detoasted varlena (varlena, heap)).0.needs_drop ≡ true) ↔ (varlena ≢ varlena))
  unfolding drop
  same-Owned context varlena heap =
      rw (same_chunk varlena) ((refl, λ e. absurd (cc)), (λ e. absurd (cc), λ h. absurd (h refl)))

  detoasted-Owned :
      (context varlena : ℕ) (heap : Heap) (d : ℕ × Heap)
      → ((d ≡ (varlena, heap)) ⊎ IsCopy context varlena heap d)
      → Owned context heap (detoasted varlena d)
        × (((detoasted varlena d).0.needs_drop ≡ true) ↔ (d.0 ≢ varlena))
  unfolding drop
  detoasted-Owned context varlena heap d (inl e) =
      subst
        (λ d.
          Owned context heap (detoasted varlena d)
          × (((detoasted varlena d).0.needs_drop ≡ true) ↔ (d.0 ≢ varlena)))
        (sym e) (same-Owned context varlena heap)
  detoasted-Owned context varlena heap (q, heap') (inr (other_chunk, freed, place)) =
      rw (different varlena q other_chunk) ((freed, λ e. place), (λ e. other_chunk, λ h. refl))

  -- A datum that is not null is read, in the current context or into another, as a value that gives
  -- the heap back as it was when it is dropped and that owns a chunk of that context or none. It owns
  -- one exactly where it does not point to the datum, which after a read into another context it
  -- never does; de-TOASTing returns the datum or a new copy of it.
  pub from_datum-drop :
      Detoasts
      → (context varlena : ℕ) (heap : Heap)
      → ((out : Jsonb × Heap) × (from_polymorphic_datum context (some varlena) false heap
            ≡ ok (some out.0, out.1))
          × Owned context heap out
          × ((out.0.needs_drop ≡ true) ↔ (out.0.pg_jsonb ≢ varlena)))
        × ((out : Jsonb × Heap) × (from_datum_in_memory_context context (some varlena) false heap
              ≡ ok (some out.0, out.1))
            × Owned context heap out
            × (out.0.needs_drop ≡ true)
            × (out.0.pg_jsonb ≢ varlena))
  unfolding from_polymorphic_datum from_datum_in_memory_context drop
  from_datum-drop law context varlena heap =
      let (owned, owns) =
        detoasted-Owned context varlena heap (pg_detoast_datum context varlena heap)
          (law context varlena heap).0 in
      let (other_chunk, freed, place) = (law context varlena heap).1 in
      (
        (detoasted varlena (pg_detoast_datum context varlena heap), refl, owned, owns),
        (
          copied (pg_detoast_datum_copy context varlena heap),
          refl,
          (freed, λ e. place),
          refl,
          other_chunk,
        ),
      )
