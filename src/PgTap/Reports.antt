-- ===== src/PgTap/Reports.antt =====
-- pgtap-parse/src/lib.rs: what a run of pgTAP prints, as the text that `parse_pgtap_result` reads. A line holds the reports
-- of one row of a query, one per column, and a line somewhere holds the plan.
use promscale_extension.Prelude.{
  ℕ, ◌≡◌, refl, ◌∙◌, All, All-append, true, false, List, [], ◌∷◌, ◌++◌, map, arith, ◌==◌,
  Bool-cases, inl, inr,
}
use promscale_extension.PgTap.{Str, PgTapTest, pass, fail, TestResult}
use promscale_extension.PgTap.Patterns.{Unicode, split_bars}
use promscale_extension.PgTap.Lines.{
  Harmless, InLine, Harmless-InLine, join_bars, join_bars-InLine, unlines, split_bars-join_bars,
}
use promscale_extension.PgTap.Matches.{
  IsUnicode, IsNumber, word_text, print_name, print_number, print_report, print_plan, has_dots,
  has_dots-skip,
}

pub record Report : Type 0 where
  pub number : Str
  pub test : PgTapTest

abbrev pub Row : Type 0
Row = Report × List Report

abbrev pub print : Report → Str
print r = print_report r.number r.test

abbrev pub print_row : Row → Str
print_row (first, others) = join_bars (32 ∷ print first) (map print others)

abbrev pub print_rows : List Row → List Str
print_rows rows = map print_row rows

abbrev pub tests_of_row : Row → List PgTapTest
tests_of_row (first, others) = first.test ∷ map (λ r. r.test) others

abbrev pub tests_of_rows : List Row → List PgTapTest
tests_of_rows [] = []
tests_of_rows (row ∷ rows) = tests_of_row row ++ tests_of_rows rows

-- The plan may come before the reports, behind them or between them.
abbrev pub print_run : List Row → Str → Str → List Row → Str
print_run before start end after =
    unlines (print_rows before ++ print_plan start end ∷ print_rows after)

abbrev NoDot : Str → Type 0
NoDot [] = Unit
NoDot (c ∷ s) = c == 46 ≡ false

has_dots-append :
    (s t : Str) → has_dots s ≡ false → has_dots t ≡ false → NoDot t → has_dots (s ++ t) ≡ false
unfolding has_dots
has_dots-append [] t h k n = k
has_dots-append (c ∷ []) [] h k n = refl
has_dots-append (c ∷ []) (d ∷ t) h k n = ground arith
has_dots-append (c ∷ d ∷ s) t h k n = ground (arith, has_dots-append (d ∷ s) t)

word_text-has_dots : (r : TestResult) → has_dots (word_text r) ≡ false
unfolding has_dots
word_text-has_dots pass = refl
word_text-has_dots fail = refl

print_name-has_dots : (name : Str) → has_dots name ≡ false → has_dots (print_name name) ≡ false
unfolding has_dots
print_name-has_dots [] h = refl
print_name-has_dots (c ∷ name) h = h

print_name-NoDot : (name : Str) → NoDot (print_name name)
print_name-NoDot [] = tt
print_name-NoDot (c ∷ name) = refl

has_dots-blank : (s : Str) → has_dots s ≡ false → has_dots (32 ∷ s) ≡ false
has_dots-blank s h = has_dots-skip (32 ∷ []) s (refl, tt) ∙ h

has_dots-bar : (s : Str) → has_dots s ≡ false → has_dots (32 ∷ 124 ∷ 32 ∷ s) ≡ false
has_dots-bar s h = has_dots-skip (32 ∷ 124 ∷ 32 ∷ []) s (refl, (refl, (refl, tt))) ∙ h

module _ (u : Unicode) where
  open u use {is_decimal}

  -- A name takes no line break and no bar, and no two full stops in a row.
  abbrev pub IsReport : Report → Type 0
  IsReport r =
      IsNumber u r.number × All Harmless r.test.test_name × (has_dots r.test.test_name ≡ false)

  abbrev pub IsRow : Row → Type 0
  IsRow (first, others) = IsReport first × All IsReport others

  module _ (unicode : IsUnicode u) where
    open unicode use {dot_no_decimal, marks_no_decimal}

    decimal-differs : (c m : ℕ) → is_decimal c ≡ true → is_decimal m ≡ false → c == m ≡ false
    decimal-differs c m h k = elim (Bool-cases (c == m)) [
      | inl e ↦ let same : c ≡ m = ground arith in cc
      | inr e ↦ e
    ]

    digits-Harmless : (ds : Str) → All (λ d. is_decimal d ≡ true) ds → All Harmless ds
    digits-Harmless [] h = tt
    digits-Harmless (d ∷ ds) h = (
      (
        decimal-differs d 10 h.0 marks_no_decimal.0,
        decimal-differs d 13 h.0 marks_no_decimal.1,
        decimal-differs d 124 h.0 marks_no_decimal.2,
      ),
      digits-Harmless ds h.1,
    )

    digits-has_dots : (ds : Str) → All (λ d. is_decimal d ≡ true) ds → has_dots ds ≡ false
    unfolding has_dots
    digits-has_dots [] h = refl
    digits-has_dots (d ∷ []) h = refl
    digits-has_dots (d ∷ e ∷ ds) h =
        rw (decimal-differs d 46 h.0 dot_no_decimal) (digits-has_dots (e ∷ ds) h.1)

    print_name-Harmless : (name : Str) → All Harmless name → All Harmless (print_name name)
    print_name-Harmless [] h = tt
    print_name-Harmless (c ∷ name) h =
        ((refl, refl, refl), ((refl, refl, refl), ((refl, refl, refl), h)))

    word_text-Harmless : (r : TestResult) → All Harmless (word_text r)
    word_text-Harmless pass = ((refl, refl, refl), ((refl, refl, refl), tt))
    word_text-Harmless fail = (
      (refl, refl, refl),
      (
        (refl, refl, refl),
        ((refl, refl, refl), ((refl, refl, refl), ((refl, refl, refl), ((refl, refl, refl), tt)))),
      ),
    )

    number-Harmless : (number : Str) → IsNumber u number → All Harmless number
    number-Harmless [] h = cc
    number-Harmless (d ∷ ds) h = digits-Harmless (d ∷ ds) h

    print-Harmless : (r : Report) → IsReport r → All Harmless (print r)
    print-Harmless r h =
        All-append Harmless (word_text r.test.test_result) (print_number r.number r.test.test_name)
          (word_text-Harmless r.test.test_result)
          (
            (refl, refl, refl),
            All-append Harmless r.number (print_name r.test.test_name)
                (number-Harmless r.number h.0) (print_name-Harmless r.test.test_name h.1),
          )

    digits_of_number : (number : Str) → IsNumber u number → All (λ d. is_decimal d ≡ true) number
    digits_of_number [] h = tt
    digits_of_number (d ∷ ds) h = h

    print-has_dots : (r : Report) → IsReport r → has_dots (print r) ≡ false
    print-has_dots r h =
        has_dots-append (word_text r.test.test_result) (print_number r.number r.test.test_name)
          (word_text-has_dots r.test.test_result)
          (has_dots-append (32 ∷ r.number) (print_name r.test.test_name)
            (has_dots-blank r.number (digits-has_dots r.number (digits_of_number r.number h.0)))
            (print_name-has_dots r.test.test_name h.2) (print_name-NoDot r.test.test_name))
          refl

    join_bars-has_dots :
        (column : Str) (others : List Report)
        → has_dots column ≡ false
        → All IsReport others
        → has_dots (join_bars column (map print others)) ≡ false
    join_bars-has_dots column [] h k = h
    join_bars-has_dots column (r ∷ others) h k =
        has_dots-append column (32 ∷ 124 ∷ 32 ∷ join_bars (print r) (map print others)) h
          (has_dots-bar (join_bars (print r) (map print others))
            (join_bars-has_dots (print r) others (print-has_dots r k.0) k.1))
          refl

    pub print_row-has_dots : (row : Row) → IsRow row → has_dots (print_row row) ≡ false
    print_row-has_dots (first, others) h =
        join_bars-has_dots (32 ∷ print first) others
          (has_dots-blank (print first) (print-has_dots first h.0)) h.1

    pub prints-Harmless :
        (others : List Report) → All IsReport others → All (All Harmless) (map print others)
    prints-Harmless [] h = tt
    prints-Harmless (r ∷ others) h = (print-Harmless r h.0, prints-Harmless others h.1)

    pub print_row-InLine : (row : Row) → IsRow row → All InLine (print_row row)
    print_row-InLine (first, others) h =
        join_bars-InLine (32 ∷ print first) (map print others)
          ((refl, refl, refl), print-Harmless first h.0) (prints-Harmless others h.1)

    pub print_plan-InLine :
        (start end : Str) → IsNumber u start → IsNumber u end → All InLine (print_plan start end)
    print_plan-InLine start end h k = (
      (refl, refl),
      All-append InLine start (46 ∷ 46 ∷ end) (Harmless-InLine start (number-Harmless start h))
          ((refl, refl), ((refl, refl), Harmless-InLine end (number-Harmless end k))),
    )

    pub print_rows-InLine : (rows : List Row) → All IsRow rows → All (All InLine) (print_rows rows)
    print_rows-InLine [] h = tt
    print_rows-InLine (row ∷ rows) h = (print_row-InLine row h.0, print_rows-InLine rows h.1)

    pub columns-print_row :
        (first : Report) (others : List Report)
        → IsRow (first, others)
        → split_bars 0 (print_row (first, others)) ≡ (32 ∷ print first) ∷ map print others
    columns-print_row first others h =
        split_bars-join_bars (32 ∷ print first) (map print others)
          ((refl, refl, refl), print-Harmless first h.0) (prints-Harmless others h.1)
