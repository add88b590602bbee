-- ===== src/Regex/Transparent.antt =====
-- src/regex.rs: calls of `re2_match` with the cache against calls that compile afresh.
use promscale_extension.Prelude.{
  ◌≡◌, refl, sym, ap, ap₂, subst, ◌∙◌, Bool, true, ◌&&◌, Option, none, some, List, [], ◌∷◌, All,
  map, arith, Result, ok, err, ◌==◌, bad_pattern,
}
use promscale_extension.Regex.{
  Str, RegexCrate, CompiledRegex, LruCache, IsLruCache, same_string, compile_and_match, match_found,
  re2_match, session,
}

both : (p q : Bool) → (p && q) ≡ true → (p ≡ true) × (q ≡ true)
both p q h = (ground arith, ground arith)

eq_of_same_string : (s t : Str) → same_string s t ≡ true → s ≡ t
unfolding same_string
eq_of_same_string [] [] h = refl
eq_of_same_string [] (b ∷ t) h = cc
eq_of_same_string (a ∷ s) [] h = cc
eq_of_same_string (a ∷ s) (b ∷ t) h =
    let (first, rest) = both (a == b) (same_string s t) h in
    ap₂ (λ x xs. x ∷ xs) (ground (arith, first)) (eq_of_same_string s t rest)

-- A match without a cache.
abbrev pub matched : (r : RegexCrate) → Str → Option r.Regex → Result Bool
matched r string none = err bad_pattern
matched r string (some matcher) = ok (r.is_match matcher string)

abbrev pub direct : (r : RegexCrate) → Str → Str → Result Bool
direct r string pattern = matched r string (r.compile pattern)

module _ (r : RegexCrate) (l : LruCache (CompiledRegex r)) (law : IsLruCache l) where
  -- Every entry is what its pattern compiles to.
  abbrev Sound : l.Cache → Type 0
  Sound cache = All (λ i. r.compile i.pattern ≡ some i.matcher) (l.entries cache)

  kept :
      (cache : l.Cache)
      → Sound cache
      → (pattern : Str) → Sound (l.find (λ i. same_string i.pattern pattern) cache).1
  kept cache s pattern =
      law.kept (λ i. r.compile i.pattern ≡ some i.matcher) (λ i. same_string i.pattern pattern)
        cache s

  compile_and_match-Sound :
      (string pattern : Str) (cache : l.Cache) (compiled : Option r.Regex)
      → r.compile pattern ≡ compiled
      → Sound cache
      → ((compile_and_match r l string pattern cache compiled).0 ≡ direct r string pattern)
        × Sound (compile_and_match r l string pattern cache compiled).1
  compile_and_match-Sound string pattern cache none e s = (sym (ap (matched r string) e), s)
  compile_and_match-Sound string pattern cache (some matcher) e s = (
    sym (ap (matched r string) e),
    law.inserted (λ i. r.compile i.pattern ≡ some i.matcher)
        (record { pattern = pattern; matcher = matcher }) cache e s,
  )

  match_found-Sound :
      (string pattern : Str) (cache : l.Cache) (out : Option (CompiledRegex r) × l.Cache)
      → Sound cache
      → l.find (λ i. same_string i.pattern pattern) cache ≡ out
      → ((match_found r l string pattern out).0 ≡ direct r string pattern)
        × Sound (match_found r l string pattern out).1
  match_found-Sound string pattern cache (some compiled, cache') s e =
      let (sound, same) =
        law.found (λ i. r.compile i.pattern ≡ some i.matcher) (λ i. same_string i.pattern pattern)
          cache compiled s (ap (λ o. o.0) e) in
      let at_pattern : compiled.pattern ≡ pattern =
        eq_of_same_string compiled.pattern pattern same in
      let compiles : r.compile pattern ≡ some compiled.matcher =
        ap r.compile (sym at_pattern) ∙ sound in
      (sym (ap (matched r string) compiles), subst Sound (ap (λ o. o.1) e) (kept cache s pattern))
  match_found-Sound string pattern cache (none, cache') s e =
      compile_and_match-Sound string pattern cache' (r.compile pattern) refl
        (subst Sound (ap (λ o. o.1) e) (kept cache s pattern))

  re2_match-Sound :
      (string pattern : Str) (cache : l.Cache)
      → Sound cache
      → ((re2_match r l string pattern cache).0 ≡ direct r string pattern)
        × Sound (re2_match r l string pattern cache).1
  unfolding re2_match
  re2_match-Sound string pattern cache s =
      match_found-Sound string pattern cache (l.find (λ i. same_string i.pattern pattern) cache) s
        refl

  session-Sound :
      (calls : List (Str × Str)) (cache : l.Cache)
      → Sound cache
      → session r l calls cache ≡ map (λ call. direct r call.0 call.1) calls
  unfolding session
  session-Sound [] cache s = refl
  session-Sound ((string, pattern) ∷ calls) cache s =
      let (result, sound) = re2_match-Sound string pattern cache s in
      ap₂ (λ x xs. x ∷ xs) result (session-Sound calls (re2_match r l string pattern cache).1 sound)

  -- In any sequence of calls from an empty cache, each call has the result of compiling its pattern
  -- afresh, the error of a pattern that does not compile included.
  pub session-direct :
      (calls : List (Str × Str))
      → session r l calls l.empty ≡ map (λ call. direct r call.0 call.1) calls
  session-direct calls = session-Sound calls l.empty (rw law.entries-empty tt)
