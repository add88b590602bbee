-- ===== src/PgTap/Matches.antt =====
-- pgtap-parse/src/lib.rs: what the two regular expressions find in the lines that pgTAP writes.
use mathlib.Core.List.{append-nil}
use promscale_extension.Prelude.{
  ℕ, ◌≡◌, refl, ap, sym, ◌∙◌, All, Bool, true, false, ◌&&◌, ◌||◌, Option, none, some, [], ◌∷◌, ◌++◌,
  arith, ◌==◌, Bool-cases, inl, inr,
}
use promscale_extension.PgTap.{
  Str, pass, fail, TestResult, PgTapTest, ResultCaptures, ResultWord, word_ok, word_not_ok,
}
use promscale_extension.PgTap.Patterns.{
  Unicode, plan_captures, result_captures, then_match, nonempty, digits_of, strip_prefix, search,
  take_digits, with_group, nested, plan_body, name_of, result_word, result_body, plan_re, result_re,
}

-- Two full stops in a row.
unfoldable pub has_dots : Str → Bool
has_dots [] = false
has_dots (c ∷ []) = false
has_dots (c ∷ d ∷ s) = let rest = has_dots (d ∷ s) in (c == 46 && d == 46) || rest

has_dots-tail : (c : ℕ) (s : Str) → has_dots (c ∷ s) ≡ false → has_dots s ≡ false
unfolding has_dots
has_dots-tail c [] h = refl
has_dots-tail c (d ∷ s) h = ground arith

pub has_dots-skip : (s t : Str) → All (λ c. c == 46 ≡ false) s → has_dots (s ++ t) ≡ has_dots t
unfolding has_dots
has_dots-skip [] t h = refl
has_dots-skip (c ∷ []) [] h = refl
has_dots-skip (c ∷ []) (d ∷ t) h = ground arith
has_dots-skip (c ∷ d ∷ s) t h = rw h.0 (has_dots-skip (d ∷ s) t h.1)

pub has_dots-then :
    (s t : Str) (c : ℕ) → c == 46 ≡ false → has_dots (s ++ c ∷ t) ≡ has_dots s || has_dots (c ∷ t)
unfolding has_dots
has_dots-then [] t c h = refl
has_dots-then (a ∷ []) t c h = ground arith
has_dots-then (a ∷ b ∷ s) t c h = ground (arith, has_dots-then (b ∷ s) t c h)

strip_dots : (s : Str) → has_dots s ≡ false → strip_prefix (46 ∷ 46 ∷ []) s ≡ none
unfolding has_dots strip_prefix
strip_dots [] h = refl
strip_dots (c ∷ []) h = ground arith
strip_dots (c ∷ d ∷ s) h = ground arith

then_match-none :
    {A B : Type 0} (m : Option A) (f : A → Option B)
    → ((a : A) → m ≡ some a → f a ≡ none)
    → then_match m f ≡ none
then_match-none none f h = refl
then_match-none (some a) f h = h a refl

search-none :
    {A : Type 0} (P : Str → Type 0) (pattern : Str → Option A)
    → ((c : ℕ) (s : Str) → P (c ∷ s) → P s)
    → ((s : Str) → P s → pattern s ≡ none)
    → (s : Str) → P s
    → search pattern s ≡ none
unfolding search
search-none P pattern tail fails [] h = fails [] h
search-none P pattern tail fails (c ∷ s) h =
    rw (fails (c ∷ s) h, search-none P pattern tail fails s (tail c s h)) refl

abbrev pub word_of : TestResult → ResultWord
word_of pass = word_ok
word_of fail = word_not_ok

abbrev pub word_text : TestResult → Str
word_text pass = 111 ∷ 107 ∷ []
word_text fail = 110 ∷ 111 ∷ 116 ∷ 32 ∷ 111 ∷ 107 ∷ []

abbrev pub captures_of : PgTapTest → ResultCaptures
captures_of test = record {
  nesting = none;
  result = word_of test.test_result;
  name = test.test_name;
}

-- A test that has no description has no dash either.
abbrev pub print_name : Str → Str
print_name [] = []
print_name (c ∷ name) = 32 ∷ 45 ∷ 32 ∷ c ∷ name

abbrev pub print_plan : Str → Str → Str
print_plan start end = 32 ∷ start ++ 46 ∷ 46 ∷ end

abbrev pub print_number : Str → Str → Str
print_number number name = 32 ∷ (number ++ print_name name)

abbrev pub print_report : Str → PgTapTest → Str
print_report number test = word_text test.test_result ++ print_number number test.test_name

module _ (u : Unicode) where
  open u use {is_white_space, is_decimal}

  -- What Unicode says of the characters that pgTAP writes around names and numbers.
  pub record IsUnicode : Type 0 where
    pub decimal_visible : (c : ℕ) → is_decimal c ≡ true → is_white_space c ≡ false
    pub words_visible : (is_white_space 110 ≡ false) × (is_white_space 111 ≡ false)
    pub blank_no_decimal : is_decimal 32 ≡ false
    pub dot_no_decimal : is_decimal 46 ≡ false
    pub marks_no_decimal :
        (is_decimal 10 ≡ false) × (is_decimal 13 ≡ false) × (is_decimal 124 ≡ false)

  abbrev pub IsNumber : Str → Type 0
  IsNumber [] = ◌≡◌ {A = Bool} true false
  IsNumber (c ∷ s) = All (λ d. is_decimal d ≡ true) (c ∷ s)

  has_dots-take_digits : (s : Str) → has_dots s ≡ false → has_dots (take_digits u s).1 ≡ false
  unfolding take_digits
  has_dots-take_digits [] h = h
  has_dots-take_digits (c ∷ s) h = elim (Bool-cases (is_decimal c)) [
    | inl e ↦ rw e (has_dots-take_digits s (has_dots-tail c s h))
    | inr e ↦ rw e h
  ]

  nonempty-some : (p q : Str × Str) → nonempty u p ≡ some q → q ≡ p
  nonempty-some ([], rest) q e = cc
  nonempty-some (d ∷ ds, rest) q e = cc

  plan_body-none : (s : Str) → has_dots s ≡ false → plan_body u s ≡ none
  unfolding plan_body
  plan_body-none s h = then_match-none (digits_of u s) _ (λ start e.
      let none_follow : has_dots start.1 ≡ false =
        ap (λ p. has_dots p.1) (nonempty-some (take_digits u s) start e)
        ∙ has_dots-take_digits s h in
      rw (strip_dots start.1 none_follow) refl)

  nested-none :
      {A : Type 0} (P : Str → Type 0) (pattern : Str → Option A)
      → ((c : ℕ) (s : Str) → P (c ∷ s) → P s)
      → ((s : Str) → P s → pattern s ≡ none)
      → (group : Option Str) (s : Str) → P s
      → nested u pattern group s ≡ none
  unfolding nested
  nested-none P pattern tail fails group [] h = rw (fails [] h) refl
  nested-none P pattern tail fails group (a ∷ []) h = rw (fails (a ∷ []) h) refl
  nested-none P pattern tail fails group (a ∷ b ∷ []) h = rw (fails (a ∷ b ∷ []) h) refl
  nested-none P pattern tail fails group (a ∷ b ∷ c ∷ []) h = rw (fails (a ∷ b ∷ c ∷ []) h) refl
  nested-none P pattern tail fails group (a ∷ b ∷ c ∷ d ∷ s) h =
      let deeper : nested u pattern (some (a ∷ b ∷ c ∷ d ∷ [])) s ≡ none =
        nested-none P pattern tail fails _ s (tail d s (tail c _ (tail b _ (tail a _ h)))) in
      ground (arith, deeper, fails (a ∷ b ∷ c ∷ d ∷ s) h)

  -- No decimal digit goes on.
  abbrev pub Stops : Str → Type 0
  Stops [] = Unit
  Stops (c ∷ s) = is_decimal c ≡ false

  take_digits-number :
      (ds t : Str) → All (λ d. is_decimal d ≡ true) ds → Stops t → take_digits u (ds ++ t) ≡ (ds, t)
  unfolding take_digits
  take_digits-number [] [] h k = refl
  take_digits-number [] (c ∷ t) h k = rw k refl
  take_digits-number (d ∷ ds) t h k = rw (h.0, take_digits-number ds t h.1 k) refl

  digits_of-number : (ds t : Str) → IsNumber ds → Stops t → digits_of u (ds ++ t) ≡ some (ds, t)
  digits_of-number [] t h k = cc
  digits_of-number (d ∷ ds) t h k = rw (take_digits-number (d ∷ ds) t h k) refl

  nested-first :
      {A : Type 0} (pattern : Str → Option A) (group : Option Str) (a : ℕ) (s : Str)
      → is_white_space a ≡ false
      → nested u pattern group (a ∷ s) ≡ with_group u group (pattern (a ∷ s))
  unfolding nested
  nested-first pattern group a [] h = refl
  nested-first pattern group a (b ∷ []) h = refl
  nested-first pattern group a (b ∷ c ∷ []) h = refl
  nested-first pattern group a (b ∷ c ∷ d ∷ s) h = rw h refl

  nested-second :
      {A : Type 0} (pattern : Str → Option A) (group : Option Str) (a b : ℕ) (s : Str)
      → is_white_space b ≡ false
      → nested u pattern group (a ∷ b ∷ s) ≡ with_group u group (pattern (a ∷ b ∷ s))
  unfolding nested
  nested-second pattern group a b [] h = refl
  nested-second pattern group a b (c ∷ []) h = refl
  nested-second pattern group a b (c ∷ d ∷ s) h = ground (arith, h)

  -- The first position is passed over if nothing matches there.
  search-next :
      {A : Type 0} (pattern : Str → Option A) (c : ℕ) (s : Str)
      → pattern (c ∷ s) ≡ none
      → search pattern (c ∷ s) ≡ search pattern s
  unfolding search
  search-next pattern c s h = rw h refl

  search-here :
      {A : Type 0} (pattern : Str → Option A) (c : ℕ) (s : Str) (a : A)
      → pattern (c ∷ s) ≡ some a
      → search pattern (c ∷ s) ≡ some a
  unfolding search
  search-here pattern c s a h = rw h refl

  pub plan_re-none : (line : Str) → has_dots line ≡ false → plan_re u line ≡ none
  unfolding plan_re
  plan_re-none line h =
      rw
        (search-none (λ s. has_dots s ≡ false) (nested u (plan_body u) none) has_dots-tail
          (nested-none (λ s. has_dots s ≡ false) (plan_body u) has_dots-tail plan_body-none none)
          line h)
        refl

  module _ (unicode : IsUnicode) where
    open unicode use {decimal_visible, words_visible, blank_no_decimal, dot_no_decimal}

    plan_body-blank : (s : Str) → plan_body u (32 ∷ s) ≡ none
    unfolding plan_body take_digits
    plan_body-blank s = rw blank_no_decimal refl

    plan_body-plan :
        (start end : Str)
        → IsNumber start
        → IsNumber end
        → plan_body u (start ++ 46 ∷ 46 ∷ end) ≡ some end
    unfolding plan_body strip_prefix
    plan_body-plan start end h k =
        rw
          (
            digits_of-number start (46 ∷ 46 ∷ end) h dot_no_decimal,
            ap (digits_of u) (sym (append-nil end)) ∙ digits_of-number end [] k tt,
          )
          refl

    visible-number : (c : ℕ) (s : Str) → IsNumber (c ∷ s) → is_white_space c ≡ false
    visible-number c s h = decimal_visible c h.0

    pub plan_re-print_plan :
        (start end : Str)
        → IsNumber start
        → IsNumber end
        → plan_re u (print_plan start end) ≡ some (record { nesting = none; end = end })
    unfolding plan_re
    plan_re-print_plan [] end h k = cc
    plan_re-print_plan (c ∷ start) end h k =
        let visible = visible-number c start h in
        ap (plan_captures u) (
          search-next (nested u (plan_body u) none) 32 (c ∷ start ++ 46 ∷ 46 ∷ end) (
            nested-second (plan_body u) none 32 c (start ++ 46 ∷ 46 ∷ end) visible
            ∙ ap (with_group u none) (plan_body-blank (c ∷ start ++ 46 ∷ 46 ∷ end)))
          ∙ search-here (nested u (plan_body u) none) c (start ++ 46 ∷ 46 ∷ end) (none, end)
              (nested-first (plan_body u) none c (start ++ 46 ∷ 46 ∷ end) visible
                ∙ ap (with_group u none) (plan_body-plan (c ∷ start) end h k)))

    Stops-print_name : (name : Str) → Stops (print_name name)
    Stops-print_name [] = tt
    Stops-print_name (c ∷ name) = blank_no_decimal

    name_of-print_name :
        (name : Str)
        → name_of u (print_name name) (strip_prefix (32 ∷ 45 ∷ 32 ∷ []) (print_name name)) ≡ name
    unfolding strip_prefix
    name_of-print_name [] = refl
    name_of-print_name (c ∷ name) = refl

    result_body-print_report :
        (number name : Str) (result : TestResult)
        → IsNumber number
        → result_body u (word_text result ++ print_number number name) ≡ some (word_of result, name)
    unfolding result_body result_word strip_prefix
    result_body-print_report number name pass h =
        rw
          (
            digits_of-number number (print_name name) h (Stops-print_name name),
            name_of-print_name name,
          )
          refl
    result_body-print_report number name fail h =
        rw
          (
            digits_of-number number (print_name name) h (Stops-print_name name),
            name_of-print_name name,
          )
          refl

    nested-report :
        {A : Type 0} (pattern : Str → Option A) (result : TestResult) (rest : Str)
        → nested u pattern none (word_text result ++ rest)
          ≡ with_group u none (pattern (word_text result ++ rest))
    nested-report pattern pass rest = nested-first pattern none 111 (107 ∷ rest) words_visible.1
    nested-report pattern fail rest =
        nested-first pattern none 110 (111 ∷ 116 ∷ 32 ∷ 111 ∷ 107 ∷ rest) words_visible.0

    nested-blank_report :
        {A : Type 0} (pattern : Str → Option A) (result : TestResult) (rest : Str)
        → nested u pattern none (32 ∷ (word_text result ++ rest))
          ≡ with_group u none (pattern (32 ∷ (word_text result ++ rest)))
    nested-blank_report pattern pass rest =
        nested-second pattern none 32 111 (107 ∷ rest) words_visible.1
    nested-blank_report pattern fail rest =
        nested-second pattern none 32 110 (111 ∷ 116 ∷ 32 ∷ 111 ∷ 107 ∷ rest) words_visible.0

    result_body-blank : (s : Str) → result_body u (32 ∷ s) ≡ none
    unfolding result_body result_word strip_prefix
    result_body-blank s = refl

    search-report :
        {A : Type 0} (pattern : Str → Option A) (result : TestResult) (rest : Str) (a : A)
        → pattern (word_text result ++ rest) ≡ some a
        → search pattern (word_text result ++ rest) ≡ some a
    search-report pattern pass rest a h = search-here pattern _ _ a h
    search-report pattern fail rest a h = search-here pattern _ _ a h

    pub result_re-print_report :
        (number : Str) (test : PgTapTest)
        → IsNumber number
        → result_re u (print_report number test) ≡ some (captures_of test)
    unfolding result_re
    result_re-print_report number test h =
        let rest = print_number number test.test_name in
        ap (result_captures u) (
          search-report (nested u (result_body u) none) test.test_result rest _ (
            nested-report (result_body u) test.test_result rest
            ∙ ap (with_group u none)
                (result_body-print_report number test.test_name test.test_result h)))

    pub result_re-blank_report :
        (number : Str) (test : PgTapTest)
        → IsNumber number
        → result_re u (32 ∷ print_report number test) ≡ some (captures_of test)
    unfolding result_re
    result_re-blank_report number test h =
        let rest = print_number number test.test_name in
        ap (result_captures u) (
          search-next (nested u (result_body u) none) 32 (print_report number test) (
            nested-blank_report (result_body u) test.test_result rest
            ∙ ap (with_group u none) (result_body-blank (print_report number test))))
        ∙ result_re-print_report number test h
