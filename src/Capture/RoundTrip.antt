-- ===== src/Capture/RoundTrip.antt =====
-- The counters that `parse_proc` of src/capture.rs reads are those that the kernel printed.
use netmeter.Prelude.{
  subst, ℕ, ◌≡◌, refl, sym, ◌∙◌, ap, false, List, [], ◌∷◌, ◌++◌, Option, none, some, Text, Map,
  IsMap, insert, lookup, All, All-append, All-map, replicate, drop, get_or, nat_beq, text_eq, arith,
}
use netmeter.Prelude.Decimal.{print_nat}
use netmeter.Prelude.Decimal.Laws.{print_nat-All}
use netmeter.Prelude.Strings.{strip_cr, lines_from}
use netmeter.Prelude.Strings.Split.{IsWithout, strip_suffix_without, lines-append}
use netmeter.Config.Load.{insert_all}
use netmeter.Config.Laws.{insert_all-lookup, upper_layer}
use netmeter.Capture.{parse_lines, insert_row, parse_proc}
use netmeter.Capture.Printed.{
  Stat, name_of, print_columns, print_stat, Stats, print_stats, print_file, stats_rows, IsStat,
  line_lem, All-replicate,
}

-- No character of a line ends it.
abbrev IsPlain : ℕ → Type 0
IsPlain c = (nat_beq c 10 ≡ false) × (nat_beq c 13 ≡ false)

columns-IsPlain : (cs : List (ℕ × ℕ)) → All IsPlain (print_columns cs)
unfolding print_columns
columns-IsPlain [] = tt
columns-IsPlain ((blanks, n) ∷ cs) =
    let (c, t, e, d, ds) = print_nat-All n in
    let digits_plain : All IsPlain (print_nat n) =
      subst (All IsPlain) (sym e)
        (ground (arith, d), All-map (λ x h. (ground arith, ground arith)) t ds) in
    (
      (refl, refl),
      All-append IsPlain (replicate blanks 32) _ (All-replicate IsPlain blanks 32 (refl, refl))
          (All-append IsPlain (print_nat n) _ digits_plain (columns-IsPlain cs)),
    )

stat-IsPlain : (rx tx : ℕ) (s : Stat) → IsStat rx tx s → All IsPlain (print_stat s)
unfolding print_stat
stat-IsPlain rx tx s h =
    All-append IsPlain (replicate s.indent 32) _ (All-replicate IsPlain s.indent 32 (refl, refl)) (
      All-append IsPlain (name_of s) _
        (All-map (λ c w. (ground arith, ground arith)) (name_of s) h.is_word)
        ((refl, refl), columns-IsPlain s.columns))

-- Every line is one of an interface.
abbrev pub AllStats : Stats → Type 0
AllStats ss = All (λ x. IsStat x.1.0 x.1.1 x.0) ss

strip_cr-IsPlain : (t : Text) → All IsPlain t → strip_cr t ≡ t
strip_cr-IsPlain t h = ap (λ o. get_or o t) (strip_suffix_without t 13 (All-map (λ c p. p.1) t h))

parse_stats :
    (ss : Stats) (m : Map Text (ℕ × ℕ))
    → AllStats ss
    → parse_lines (lines_from (print_stats ss) []) m ≡ insert_all (stats_rows ss) m
unfolding print_stats parse_lines insert_all
parse_stats [] m h = unfold lines_from in refl
parse_stats ((s, (rx, tx)) ∷ ss) m h =
    let plain = stat-IsPlain rx tx s h.0 in
    ap (λ ls. parse_lines ls m)
      (lines-append (print_stat s) (print_stats ss) [] (All-map (λ c p. p.0) (print_stat s) plain)
        ∙ ap (λ l. l ∷ lines_from (print_stats ss) []) (strip_cr-IsPlain (print_stat s) plain))
    ∙ ap (λ o. parse_lines (lines_from (print_stats ss) []) (insert_row o m)) (line_lem rx tx s h.0)
    ∙ parse_stats ss (insert (name_of s) (rx, tx) m) h.1

-- From a file as the kernel prints it, two lines of a header and then for each interface a name
-- without blanks and colons, set in by any blanks, a colon and at least 16 columns, none of the two
-- counters above 64 bits, and no name twice, parse_proc reads for every name the first and the
-- ninth column of its line, and nothing for a name that is not there.
pub parse_proc-print_file :
    (first second : Text) (ss : Stats) (name : Text)
    → IsWithout 10 first
    → IsWithout 10 second
    → AllStats ss
    → IsMap (stats_rows ss)
    → lookup name (parse_proc (print_file first second ss)) ≡ lookup name (stats_rows ss)
unfolding parse_proc print_file lookup
parse_proc-print_file first second ss name h k stats once =
    ap (λ ls. lookup name (parse_lines (drop 2 ls) []))
      (lines-append first (second ++ 10 ∷ print_stats ss) [] h
        ∙ ap (λ ls. strip_cr first ∷ ls) (lines-append second (print_stats ss) [] k))
    ∙ ap (lookup name) (parse_stats ss [] stats)
    ∙ insert_all-lookup (stats_rows ss) [] name once
    ∙ upper_nothing (lookup name (stats_rows ss))
  where
    upper_nothing : (o : Option (ℕ × ℕ)) → upper_layer o none ≡ o
    upper_nothing none = refl
    upper_nothing (some v) = refl
