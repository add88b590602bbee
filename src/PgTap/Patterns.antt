-- ===== src/PgTap/Patterns.antt =====
-- pgtap-parse/src/lib.rs: the two regular expressions of `parse_pgtap_result`, each as a function that
-- finds what its pattern finds, and the splitting of text and the reading of numbers as the standard
-- library documents them. Which characters are white space and digits is the tables of Unicode.
use promscale_extension.Prelude.{
  ℕ, zero, suc, ◌+◌, ◌-◌, ◌*◌, ◌^◌, Bool, true, false, ◌&&◌, Option, none, some, List, [], ◌∷◌, ltb,
  leb, ◌==◌, if◌then◌else◌,
}
use promscale_extension.PgTap.{
  Str, PlanCaptures, ResultWord, word_ok, word_not_ok, ResultCaptures, Text,
}

-- `\s` and `\d`.
pub record Unicode : Type 0 where
  pub is_white_space : ℕ → Bool
  pub is_decimal : ℕ → Bool

abbrev pub or_else {ℓ} : {A : Type ℓ} → Option A → Option A → Option A
or_else none other = other
or_else (some a) other = some a

-- A literal, and what is behind it.
unfoldable pub strip_prefix : Str → Str → Option Str
strip_prefix [] s = some s
strip_prefix (p ∷ prefix) [] = none
strip_prefix (p ∷ prefix) (c ∷ s) =
    let rest = strip_prefix prefix s in if c == p then rest else none

abbrev pub then_match {ℓ κ} : {A : Type ℓ} {B : Type κ} → Option A → (A → Option B) → Option B
then_match none f = none
then_match (some a) f = f a

-- `.*?` and then the pattern: the first position at which it matches. A line has no line feed.
unfoldable pub search : {A : Type 0} → (Str → Option A) → Str → Option A
search pattern [] = pattern []
search pattern (c ∷ s) = let later = search pattern s in or_else (pattern (c ∷ s)) later

module _ (u : Unicode) where
  open u use {is_white_space, is_decimal}

  -- `\d+`: the digits, and what is behind them.
  unfoldable pub take_digits : Str → Str × Str
  take_digits [] = ([], [])
  take_digits (c ∷ s) =
      let (digits, rest) = take_digits s in if is_decimal c then (c ∷ digits, rest) else ([], c ∷ s)

  abbrev pub nonempty : Str × Str → Option (Str × Str)
  nonempty ([], rest) = none
  nonempty (d ∷ digits, rest) = some (d ∷ digits, rest)

  abbrev pub digits_of : Str → Option (Str × Str)
  digits_of s = nonempty (take_digits s)

  abbrev pub with_group : {A : Type 0} → Option Str → Option A → Option (Option Str × A)
  with_group group none = none
  with_group group (some a) = some (group, a)

  -- `(?P<nesting>\s{4})*` and then the pattern: as many groups as let it match; the last is captured.
  unfoldable pub nested :
      {A : Type 0} → (Str → Option A) → Option Str → Str → Option (Option Str × A)
  nested pattern group (a ∷ b ∷ c ∷ d ∷ s) =
      let deeper = nested pattern (some (a ∷ b ∷ c ∷ d ∷ [])) s in
      let here = with_group group (pattern (a ∷ b ∷ c ∷ d ∷ s)) in
      if is_white_space a && (is_white_space b && (is_white_space c && is_white_space d))
      then or_else deeper here
      else here
  nested pattern group s = with_group group (pattern s)

  -- `(?P<start>\d+)\.\.(?P<end>\d+)`, of which the end is read.
  unfoldable pub plan_body : Str → Option Str
  plan_body s = then_match (digits_of s) (λ start.
      then_match (strip_prefix (46 ∷ 46 ∷ []) start.1)
        (λ after. then_match (digits_of after) (λ end. some end.0)))

  -- `( - )?(?P<name>.*)`.
  abbrev pub name_of : Str → Option Str → Str
  name_of s none = s
  name_of s (some after) = after

  -- One of the two words, a space, `(?P<number>\d+)` and the name.
  unfoldable pub result_word : ResultWord → Str → Str → Option (ResultWord × Str)
  result_word word text s = then_match (strip_prefix text s) (λ after.
      then_match (strip_prefix (32 ∷ []) after) (λ number.
        then_match (digits_of number)
          (λ digits. some (word, name_of digits.1 (strip_prefix (32 ∷ 45 ∷ 32 ∷ []) digits.1)))))

  -- `(?P<result>not ok|ok)`.
  unfoldable pub result_body : Str → Option (ResultWord × Str)
  result_body s =
      or_else (result_word word_not_ok (110 ∷ 111 ∷ 116 ∷ 32 ∷ 111 ∷ 107 ∷ []) s)
        (result_word word_ok (111 ∷ 107 ∷ []) s)

  abbrev pub plan_captures : Option (Option Str × Str) → Option PlanCaptures
  plan_captures none = none
  plan_captures (some (nesting, end)) = some (record { nesting = nesting; end = end })

  abbrev pub result_captures : Option (Option Str × (ResultWord × Str)) → Option ResultCaptures
  result_captures none = none
  result_captures (some (nesting, (word, name))) =
      some (record { nesting = nesting; result = word; name = name })

  unfoldable pub plan_re : Str → Option PlanCaptures
  plan_re line = plan_captures (search (nested plan_body none) line)

  unfoldable pub result_re : Str → Option ResultCaptures
  result_re subline = result_captures (search (nested result_body none) subline)

-- The pieces of a text that are split off are all built from the last.
abbrev pub push_first : ℕ → List Str → List Str
push_first c [] = (c ∷ []) ∷ []
push_first c (piece ∷ pieces) = (c ∷ piece) ∷ pieces

-- `split('\n')`.
unfoldable pub split_lines : Str → List Str
split_lines [] = [] ∷ []
split_lines (c ∷ s) =
    let pieces = split_lines s in if c == 10 then [] ∷ pieces else push_first c pieces

-- A carriage return before the line feed goes as well.
unfoldable pub strip_return : Str → Str
strip_return [] = []
strip_return (c ∷ []) = if c == 13 then [] else c ∷ []
strip_return (c ∷ d ∷ s) = c ∷ strip_return (d ∷ s)

-- What is behind the last line feed is a line if there is anything.
unfoldable pub ended_lines : List Str → List Str
ended_lines [] = []
ended_lines ([] ∷ []) = []
ended_lines ((c ∷ s) ∷ []) = (c ∷ s) ∷ []
ended_lines (piece ∷ next ∷ pieces) = strip_return piece ∷ ended_lines (next ∷ pieces)

abbrev pub lines : Str → List Str
lines s = ended_lines (split_lines s)

abbrev pub at_bar : Str → Bool
at_bar s = elim (strip_prefix (32 ∷ 124 ∷ 32 ∷ []) s) [ none ↦ false | some after ↦ true ]

-- `split(" | ")`, with the characters of the separator that are still to be passed over.
unfoldable pub split_bars : ℕ → Str → List Str
split_bars skip [] = [] ∷ []
split_bars (suc skip) (c ∷ s) = split_bars skip s
split_bars zero (c ∷ s) = elim (at_bar (c ∷ s)) [
  | true ↦ [] ∷ split_bars 2 s
  | false ↦ push_first c (split_bars 0 s)
]

-- `parse::<usize>()` on digits; an empty text, another character and an overflow are errors.
unfoldable pub parse_decimal : ℕ → Str → Option ℕ
parse_decimal n [] = if ltb n (2 ^ 64) then some n else none
parse_decimal n (c ∷ s) =
    let rest = parse_decimal (n * 10 + (c - 48)) s in if leb 48 c && leb c 57 then rest else none

abbrev pub parse_usize : Str → Option ℕ
parse_usize [] = none
parse_usize (c ∷ s) = parse_decimal 0 (c ∷ s)

abbrev pub text : Unicode → Text
text u = record {
  lines = lines;
  columns = split_bars 0;
  plan_re = plan_re u;
  result_re = result_re u;
  parse_usize = parse_usize;
}
