-- ===== src/PgTap/Lines.antt =====
-- pgtap-parse/src/lib.rs: which lines a text of ended lines has, and which columns a line.
use promscale_extension.Prelude.{
  ℕ, ◌≡◌, refl, ap, ◌∙◌, All, All-append, false, List, [], ◌∷◌, ◌++◌, arith, ◌==◌,
}
use promscale_extension.PgTap.{Str}
use promscale_extension.PgTap.Patterns.{
  strip_prefix, split_lines, strip_return, ended_lines, lines, at_bar, push_first, split_bars,
}

abbrev pub join_bars : Str → List Str → Str
join_bars column [] = column
join_bars column (next ∷ rest) = column ++ 32 ∷ 124 ∷ 32 ∷ join_bars next rest

-- No line feed, no carriage return and no bar.
abbrev pub Harmless : ℕ → Type 0
Harmless c = (c == 10 ≡ false) × (c == 13 ≡ false) × (c == 124 ≡ false)

abbrev pub InLine : ℕ → Type 0
InLine c = (c == 10 ≡ false) × (c == 13 ≡ false)

pub Harmless-InLine : (s : Str) → All Harmless s → All InLine s
Harmless-InLine [] h = tt
Harmless-InLine (c ∷ s) h = ((h.0.0, h.0.1), Harmless-InLine s h.1)

pub join_bars-InLine :
    (column : Str) (rest : List Str)
    → All Harmless column
    → All (All Harmless) rest
    → All InLine (join_bars column rest)
join_bars-InLine column [] h k = Harmless-InLine column h
join_bars-InLine column (next ∷ rest) h k =
    All-append InLine column (32 ∷ 124 ∷ 32 ∷ join_bars next rest) (Harmless-InLine column h)
      ((refl, refl), ((refl, refl), ((refl, refl), join_bars-InLine next rest k.0 k.1)))

-- Each line is ended by a line feed.
abbrev pub unlines : List Str → Str
unlines [] = []
unlines (line ∷ rest) = line ++ 10 ∷ unlines rest

split_lines-line : (s t : Str) → All InLine s → split_lines (s ++ 10 ∷ t) ≡ s ∷ split_lines t
unfolding split_lines
split_lines-line [] t h = refl
split_lines-line (c ∷ s) t h = rw (h.0.0, split_lines-line s t h.1) refl

split_lines-unlines :
    (ls : List Str) → All (All InLine) ls → split_lines (unlines ls) ≡ ls ++ [] ∷ []
unfolding split_lines
split_lines-unlines [] h = refl
split_lines-unlines (l ∷ ls) h =
    split_lines-line l (unlines ls) h.0 ∙ ap (λ w. l ∷ w) (split_lines-unlines ls h.1)

strip_return-InLine : (s : Str) → All InLine s → strip_return s ≡ s
unfolding strip_return
strip_return-InLine [] h = refl
strip_return-InLine (c ∷ []) h = rw h.0.1 refl
strip_return-InLine (c ∷ d ∷ s) h = ap (λ w. c ∷ w) (strip_return-InLine (d ∷ s) h.1)

ended_lines-next :
    (l next : Str) (rest : List Str)
    → ended_lines (l ∷ next ∷ rest) ≡ strip_return l ∷ ended_lines (next ∷ rest)
unfolding ended_lines
ended_lines-next [] next rest = refl
ended_lines-next (c ∷ l) next rest = refl

ended_lines-InLine : (ls : List Str) → All (All InLine) ls → ended_lines (ls ++ [] ∷ []) ≡ ls
unfolding ended_lines
ended_lines-InLine [] h = refl
ended_lines-InLine (l ∷ []) h =
    ended_lines-next l [] [] ∙ ap (λ w. w ∷ []) (strip_return-InLine l h.0)
ended_lines-InLine (l ∷ next ∷ ls) h =
    ended_lines-next l next (ls ++ [] ∷ [])
    ∙ rw (strip_return-InLine l h.0, ended_lines-InLine (next ∷ ls) h.1) refl

pub lines-unlines : (ls : List Str) → All (All InLine) ls → lines (unlines ls) ≡ ls
lines-unlines ls h = ap ended_lines (split_lines-unlines ls h) ∙ ended_lines-InLine ls h

at_bar-Harmless : (c d : ℕ) (s : Str) → d == 124 ≡ false → at_bar (c ∷ d ∷ s) ≡ false
unfolding strip_prefix
at_bar-Harmless c d s h = ground arith

split_bars-next :
    (c : ℕ) (s : Str)
    → at_bar (c ∷ s) ≡ false
    → split_bars 0 (c ∷ s) ≡ push_first c (split_bars 0 s)
unfolding split_bars strip_prefix
split_bars-next c s h = rw (h, split_bars) refl

split_bars-Harmless : (s : Str) → All Harmless s → split_bars 0 s ≡ s ∷ []
unfolding split_bars strip_prefix
split_bars-Harmless [] h = refl
split_bars-Harmless (c ∷ []) h = ground arith
split_bars-Harmless (c ∷ d ∷ s) h =
    split_bars-next c (d ∷ s) (at_bar-Harmless c d s h.1.0.2)
    ∙ ap (push_first c) (split_bars-Harmless (d ∷ s) h.1)

split_bars-bar :
    (s t : Str) → All Harmless s → split_bars 0 (s ++ 32 ∷ 124 ∷ 32 ∷ t) ≡ s ∷ split_bars 0 t
unfolding split_bars strip_prefix
split_bars-bar [] t h = refl
split_bars-bar (c ∷ []) t h =
    split_bars-next c (32 ∷ 124 ∷ 32 ∷ t) (at_bar-Harmless c 32 (124 ∷ 32 ∷ t) refl)
split_bars-bar (c ∷ d ∷ s) t h =
    split_bars-next c (d ∷ s ++ 32 ∷ 124 ∷ 32 ∷ t)
      (at_bar-Harmless c d (s ++ 32 ∷ 124 ∷ 32 ∷ t) h.1.0.2)
    ∙ ap (push_first c) (split_bars-bar (d ∷ s) t h.1)

pub split_bars-join_bars :
    (column : Str) (rest : List Str)
    → All Harmless column
    → All (All Harmless) rest
    → split_bars 0 (join_bars column rest) ≡ column ∷ rest
split_bars-join_bars column [] h k = split_bars-Harmless column h
split_bars-join_bars column (next ∷ rest) h k =
    split_bars-bar column (join_bars next rest) h
    ∙ ap (λ w. column ∷ w) (split_bars-join_bars next rest k.0 k.1)
