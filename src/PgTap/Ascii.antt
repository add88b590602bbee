-- ===== src/PgTap/Ascii.antt =====
-- The white space and the digits of ASCII, for the runs of the parser.
use promscale_extension.Prelude.{refl, ◌&&◌, ◌||◌, leb, ◌==◌, arith}
use promscale_extension.PgTap.Patterns.{Unicode}
use promscale_extension.PgTap.Matches.{IsUnicode}

abbrev pub ascii : Unicode
ascii = record {
  is_white_space = λ c. c == 32 || leb 9 c && leb c 13;
  is_decimal = λ c. leb 48 c && leb c 57;
}

pub ascii_unicode : IsUnicode ascii
ascii_unicode = record {
  decimal_visible = λ c h. ground arith;
  words_visible = (refl, refl);
  blank_no_decimal = refl;
  dot_no_decimal = refl;
  marks_no_decimal = (refl, refl, refl);
}
