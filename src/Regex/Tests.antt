-- ===== src/Regex/Tests.antt =====
-- Calls of `re2_match` with an engine of literal patterns and a cache of one entry.
use promscale_extension.Prelude.{
  ◌≡◌, refl, sym, ap, subst, ◌∙◌, Bool, true, false, Option, none, some, List, [], ◌∷◌, All, ok,
  err, bad_pattern, if◌then◌else◌, Bool-cases, inl, inr,
}
use promscale_extension.Regex.{
  Str, RegexCrate, CompiledRegex, LruCache, IsLruCache, same_string, session,
}
use promscale_extension.Regex.Transparent.{session-direct}

-- The empty pattern does not compile, and another one matches itself.
abbrev compile_literal : Str → Option Str
compile_literal [] = none
compile_literal (c ∷ s) = some (c ∷ s)

abbrev literals : RegexCrate
literals = record { Regex = Str; compile = compile_literal; is_match = same_string }

abbrev Entry : Type 0
Entry = CompiledRegex literals

abbrev find_one : (Entry → Bool) → Option Entry → Option Entry
find_one p none = none
find_one p (some i) = if p i then some i else none

abbrev list_of : Option Entry → List Entry
list_of none = []
list_of (some i) = i ∷ []

abbrev one_entry : LruCache Entry
one_entry = record {
  Cache = Option Entry;
  empty = none;
  find = λ p c. (find_one p c, c);
  insert = λ i c. some i;
  entries = list_of;
}

find_one-found :
    (P : Entry → Type 0) (p : Entry → Bool) (c : Option Entry) (i : Entry)
    → All P (list_of c)
    → find_one p c ≡ some i
    → P i × (p i ≡ true)
find_one-found P p none i h e = cc
find_one-found P p (some j) i h e = elim (Bool-cases (p j)) [
  | inl t ↦
      let here : some j ≡ some i = rw t at e in
      let same : j ≡ i = cc in (subst P same h.0, ap p (sym same) ∙ t)
  | inr t ↦ let miss : none ≡ some i = rw t at e in absurd cc
]

one_entry-IsLruCache : IsLruCache one_entry
one_entry-IsLruCache = record {
  entries-empty = refl;
  found = find_one-found;
  kept = λ P p c h. h;
  inserted = λ P i c h k. (h, tt);
}

session-direct_example :
    session literals one_entry ((97 ∷ [], 97 ∷ []) ∷ (98 ∷ [], 97 ∷ []) ∷ (98 ∷ [], []) ∷ []) none
    ≡ ok true ∷ ok false ∷ err bad_pattern ∷ []
unfolding same_string
session-direct_example =
    session-direct literals one_entry one_entry-IsLruCache
      ((97 ∷ [], 97 ∷ []) ∷ (98 ∷ [], 97 ∷ []) ∷ (98 ∷ [], []) ∷ [])
