-- ===== src/Regex.antt =====
-- src/regex.rs: `re2_match` with its cache of compiled patterns. The regular expressions and the LRU
-- cache are crates that the file uses, so they are parameters.
pub mod Transparent
mod Tests
use promscale_extension.Prelude.{
  ℕ, Bool, Option, none, some, List, [], ◌∷◌, Result, ok, err, bad_pattern, All, ◌≡◌, true, false,
  ◌==◌, ◌&&◌,
}

-- A string is its characters.
abbrev pub Str : Type 0
Str = List ℕ

-- `Regex::new` and `is_match`.
pub record RegexCrate : Type 1 where
  pub Regex : Type 0
  pub compile : Str → Option Regex
  pub is_match : Regex → Str → Bool

-- `CompiledRegex`.
pub record CompiledRegex (r : RegexCrate) : Type 0 where
  pub pattern : Str
  pub matcher : r.Regex

-- `LRUCache`: `find` returns the entry that a test picks out and notes its use, `insert` may let
-- another entry go. The list of the entries is there to say so.
pub record LruCache (A : Type 0) : Type 1 where
  pub Cache : Type 0
  pub empty : Cache
  pub find : (A → Bool) → Cache → Option A × Cache
  pub insert : A → Cache → Cache
  pub entries : Cache → List A

-- What the crate documents: the cache begins empty, `find` returns an entry that passes the test and
-- adds none, and `insert` adds that one only.
pub record IsLruCache {A : Type 0} (l : LruCache A) : Type 1 where
  pub entries-empty : l.entries l.empty ≡ []
  pub found :
      (P : A → Type 0) (p : A → Bool) (c : l.Cache) (a : A)
      → All P (l.entries c)
      → (l.find p c).0 ≡ some a
      → P a × (p a ≡ true)
  pub kept :
      (P : A → Type 0) (p : A → Bool) (c : l.Cache)
      → All P (l.entries c)
      → All P (l.entries (l.find p c).1)
  pub inserted :
      (P : A → Type 0) (a : A) (c : l.Cache)
      → P a
      → All P (l.entries c)
      → All P (l.entries (l.insert a c))

-- The equality of two strings.
unfoldable pub same_string : Str → Str → Bool
same_string [] [] = true
same_string [] (b ∷ t) = false
same_string (a ∷ s) [] = false
same_string (a ∷ s) (b ∷ t) = let rest = same_string s t in (a == b) && rest

module _ (r : RegexCrate) (l : LruCache (CompiledRegex r)) where
  -- What happens on the result of `find`: on a miss the pattern is compiled, and cached.
  abbrev pub compile_and_match : Str → Str → l.Cache → Option r.Regex → Result Bool × l.Cache
  compile_and_match string pattern cache none = (err bad_pattern, cache)
  compile_and_match string pattern cache (some matcher) = (
    ok (r.is_match matcher string),
    l.insert (record { pattern = pattern; matcher = matcher }) cache,
  )

  abbrev pub match_found : Str → Str → Option (CompiledRegex r) × l.Cache → Result Bool × l.Cache
  match_found string pattern (some compiled, cache) =
      (ok (r.is_match compiled.matcher string), cache)
  match_found string pattern (none, cache) =
      compile_and_match string pattern cache (r.compile pattern)

  unfoldable pub re2_match : Str → Str → l.Cache → Result Bool × l.Cache
  re2_match string pattern cache =
      match_found string pattern (l.find (λ i. same_string i.pattern pattern) cache)

  -- The calls of one session, which share the cache of the thread.
  unfoldable pub session : List (Str × Str) → l.Cache → List (Result Bool)
  session [] cache = []
  session ((string, pattern) ∷ calls) cache =
      let out = re2_match string pattern cache in out.0 ∷ session calls out.1
