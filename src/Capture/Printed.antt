-- ===== src/Capture/Printed.antt =====
-- `parse_proc` of src/capture.rs on what the kernel prints into /proc/net/dev: two lines of a
-- header, then a line for each interface, with its name, a colon and the columns.
use mathlib.Core.List.{append_assoc}
use netmeter.Prelude.{
  ℕ, zero, suc, ◌≤◌, ◌≡◌, refl, sym, ◌∙◌, ap, true, false, List, [], ◌∷◌, ◌++◌, some, Text, Map,
  All, All-append, All-map, map, replicate, length, get_elem?, ltb, nat_beq, text_eq, arith,
}
use netmeter.Prelude.Decimal.{print_nat, is_digit, u64_max}
use netmeter.Prelude.Decimal.Laws.{print_nat-All, parse_unsigned-print_nat}
use netmeter.Prelude.Strings.{is_space, words_from, trim, trim_end, split_once}
use netmeter.Prelude.Strings.Split.{
  IsWord, IsWithout, split_once-append, trim_start-blanks, trim_end_word, words_blanks, words_run,
}
use netmeter.Capture.{column, counters_of, counters_at, parse_line}

-- One interface: how far its name is set in, and its columns, each with the further blanks before
-- it.
pub record Stat : Type 0 where
  pub indent : ℕ
  pub letter : ℕ
  pub letters : Text
  pub columns : List (ℕ × ℕ)

abbrev pub name_of : Stat → Text
name_of s = s.letter ∷ s.letters

unfoldable pub print_columns : List (ℕ × ℕ) → Text
print_columns [] = []
print_columns ((blanks, n) ∷ cs) = 32 ∷ (replicate blanks 32 ++ (print_nat n ++ print_columns cs))

unfoldable pub print_stat : Stat → Text
print_stat s = replicate s.indent 32 ++ (name_of s ++ b':' ∷ print_columns s.columns)

-- Interfaces, each with its two counters.
abbrev pub Stats : Type 0
Stats = List (Stat × (ℕ × ℕ))

unfoldable pub print_stats : Stats → Text
print_stats [] = []
print_stats ((s, counts) ∷ ss) = print_stat s ++ 10 ∷ print_stats ss

-- The file, for the two lines of its header.
unfoldable pub print_file : Text → Text → Stats → Text
print_file first second ss = first ++ 10 ∷ (second ++ 10 ∷ print_stats ss)

abbrev pub stats_rows : Stats → Map Text (ℕ × ℕ)
stats_rows [] = []
stats_rows ((s, counts) ∷ ss) = (name_of s, counts) ∷ stats_rows ss

-- A name without blanks and colons, as the kernel takes it, at least 16 columns of 64 bits, with
-- these two in the first and the ninth place.
pub record IsStat (rx tx : ℕ) (s : Stat) : Type 0 where
  pub is_word : IsWord (name_of s)
  pub no_colon : IsWithout b':' (name_of s)
  pub enough : 16 ≤ length s.columns
  pub first_is : get_elem? (map (λ c. c.1) s.columns) 0 ≡ some rx
  pub ninth_is : get_elem? (map (λ c. c.1) s.columns) 8 ≡ some tx
  pub rx_fits : rx ≤ u64_max
  pub tx_fits : tx ≤ u64_max

abbrev words_of : List (ℕ × ℕ) → List Text
words_of cs = map print_nat (map (λ c. c.1) cs)

digit_no_space : (c : ℕ) → is_digit c ≡ true → is_space c ≡ false
digit_no_space c h = ground arith

word_begins :
    (c : ℕ) (t : Text) → is_space c ≡ false → words_from (c ∷ t) [] ≡ words_from t (c ∷ [])
unfolding words_from
word_begins c t h = rw h refl

-- The columns behind a word, or behind nothing.
words-columns :
    (cs : List (ℕ × ℕ))
    → (words_from (print_columns cs) [] ≡ words_of cs)
      × ((r : ℕ) (run : Text) → words_from (print_columns cs) (r ∷ run) ≡ (r ∷ run) ∷ words_of cs)
unfolding print_columns words_from
words-columns [] = (refl, λ r run. refl)
words-columns ((blanks, n) ∷ cs) =
    let (c, t, e, d, ds) = print_nat-All n in
    let rest : words_from (replicate blanks 32 ++ (print_nat n ++ print_columns cs)) []
        ≡ print_nat n ∷ words_of cs =
      words_blanks blanks (print_nat n ++ print_columns cs)
      ∙ ap (λ w. words_from (w ++ print_columns cs) []) e
      ∙ word_begins c (t ++ print_columns cs) (digit_no_space c d)
      ∙ words_run t (print_columns cs) c [] (All-map (λ x. digit_no_space x) t ds)
      ∙ (words-columns cs).1 c t
      ∙ ap (λ w. w ∷ words_of cs) (sym e) in
    (rest, λ r run. ap (λ ws. (r ∷ run) ∷ ws) rest)

get_elem?-map :
    {A B : Type 0} (f : A → B) (xs : List A) (i : ℕ) {x : A}
    → get_elem? xs i ≡ some x
    → get_elem? (map f xs) i ≡ some (f x)
get_elem?-map f [] i h = absurd cc
get_elem?-map f (y ∷ xs) zero h = ap some (ap f cc)
get_elem?-map f (y ∷ xs) (suc i) h = get_elem?-map f xs i h

length-map_same : {A B : Type 0} (f : A → B) (xs : List A) → length (map f xs) ≡ length xs
length-map_same f [] = refl
length-map_same f (x ∷ xs) = ap suc (length-map_same f xs)

column_is :
    (cs : List (ℕ × ℕ)) (i n : ℕ)
    → get_elem? (map (λ c. c.1) cs) i ≡ some n
    → n ≤ u64_max
    → column (words_of cs) i ≡ n
column_is cs i n h fits =
    rw (get_elem?-map print_nat (map (λ c. c.1) cs) i h, parse_unsigned-print_nat u64_max n fits)
      refl

pub All-replicate : (P : ℕ → Type 0) (n c : ℕ) → P c → All P (replicate n c)
All-replicate P zero c h = tt
All-replicate P (suc n) c h = (h, All-replicate P n c h)

counters_lem :
    (rx tx : ℕ) (s : Stat)
    → IsStat rx tx s
    → counters_of (replicate s.indent 32 ++ name_of s) (print_columns s.columns)
      ≡ some (name_of s, (rx, tx))
unfolding counters_of
counters_lem rx tx s h =
    let enough : ltb (length (words_of s.columns)) 16 ≡ false = ground (
      arith,
      h.enough,
      length-map_same print_nat (map (λ c. c.1) s.columns),
      length-map_same (λ c. c.1) s.columns,
    ) in
    let trimmed : trim (replicate s.indent 32 ++ name_of s) ≡ name_of s =
      ap trim_end (trim_start-blanks s.indent s.letter s.letters h.is_word.0)
      ∙ trim_end_word (name_of s) h.is_word in
    rw
      (
        (words-columns s.columns).0,
        enough,
        trimmed,
        column_is s.columns 0 rx h.first_is h.rx_fits,
        column_is s.columns 8 tx h.ninth_is h.tx_fits,
      )
      refl

-- The line of one interface.
pub line_lem :
    (rx tx : ℕ) (s : Stat) → IsStat rx tx s → parse_line (print_stat s) ≡ some (name_of s, (rx, tx))
unfolding parse_line print_stat
line_lem rx tx s h =
    ap (λ t. counters_at (split_once t b':'))
      (sym (append_assoc (replicate s.indent 32) (name_of s) (b':' ∷ print_columns s.columns)))
    ∙ ap counters_at (
        split_once-append (replicate s.indent 32 ++ name_of s) (print_columns s.columns) b':' (
          All-append (λ c. nat_beq c b':' ≡ false) (replicate s.indent 32) (name_of s)
            (All-replicate _ s.indent 32 refl) h.no_colon))
    ∙ counters_lem rx tx s h
