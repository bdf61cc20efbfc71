-- ===== src/Prelude/Strings/Split.antt =====
-- Texts that are put together and taken apart again: at a character, at white space, into lines.
use mathlib.Core.List.{append-nil, append_assoc}
use mathlib.Core.Option.{some-injective}
use netmeter.Prelude.{
  ℕ, zero, suc, ◌≡◌, refl, sym, ◌∙◌, ap, false, [], ◌∷◌, ◌++◌, none, some, Text, All, replicate,
  nat_beq, arith,
}
use netmeter.Prelude.Strings.{
  split_once, is_space, words_from, trim_start, trim_end, is_blank, strip_suffix, strip_cr,
  lines_from,
}

-- A text without a character.
abbrev pub IsWithout : ℕ → Text → Type 0
IsWithout x t = All (λ c. nat_beq c x ≡ false) t

-- A text without white space.
abbrev pub IsWord : Text → Type 0
IsWord t = All (λ c. is_space c ≡ false) t

pub split_once-append :
    (a b : Text) (x : ℕ) → IsWithout x a → split_once (a ++ x ∷ b) x ≡ some (a, b)
unfolding split_once
split_once-append [] b x h = ground arith
split_once-append (c ∷ a) b x h = rw (h.0, split_once-append a b x h.1)

-- Two texts that are put together at a character and are the same have the same parts.
pub cut-injective :
    (x : ℕ) (a b c d : Text)
    → IsWithout x a
    → IsWithout x c
    → a ++ x ∷ b ≡ c ++ x ∷ d
    → (a ≡ c) × (b ≡ d)
cut-injective x a b c d h k same =
    let parts = some-injective _ _ (
      sym (split_once-append a b x h)
      ∙ ap (λ t. split_once t x) same
      ∙ split_once-append c d x k) in
    (ap (λ p. p.0) parts, ap (λ p. p.1) parts)

pub trim_start-blanks :
    (n c : ℕ) (t : Text) → is_space c ≡ false → trim_start (replicate n 32 ++ c ∷ t) ≡ c ∷ t
unfolding trim_start
trim_start-blanks zero c t h = rw h
trim_start-blanks (suc n) c t h = trim_start-blanks n c t h

pub trim_end_word : (t : Text) → IsWord t → trim_end t ≡ t
unfolding trim_end is_blank
trim_end_word [] h = refl
trim_end_word (c ∷ t) h = rw (h.0, trim_end_word t h.1)

pub words_blanks : (n : ℕ) (t : Text) → words_from (replicate n 32 ++ t) [] ≡ words_from t []
unfolding words_from
words_blanks zero t = refl
words_blanks (suc n) t = words_blanks n t

-- A word behind the run so far.
pub words_run :
    (w t : Text) (r : ℕ) (run : Text)
    → IsWord w
    → words_from (w ++ t) (r ∷ run) ≡ words_from t (r ∷ run ++ w)
unfolding words_from
words_run [] t r run h = ap (λ u. words_from t (r ∷ u)) (sym (append-nil run))
words_run (c ∷ w) t r run h = rw h.0 (
    words_run w t r (run ++ c ∷ []) h.1
    ∙ ap (λ u. words_from t (r ∷ u)) (append_assoc run (c ∷ []) w))

pub strip_suffix_without : (t : Text) (x : ℕ) → IsWithout x t → strip_suffix t x ≡ none
unfolding strip_suffix
strip_suffix_without [] x h = refl
strip_suffix_without (c ∷ []) x h = rw h.0
strip_suffix_without (c ∷ d ∷ t) x h = rw (strip_suffix_without (d ∷ t) x h.1)

-- One line and what follows it.
pub lines-append :
    (l t run : Text)
    → IsWithout 10 l
    → lines_from (l ++ 10 ∷ t) run ≡ strip_cr (run ++ l) ∷ lines_from t []
unfolding lines_from
lines-append [] t run h = ap (λ u. strip_cr u ∷ lines_from t []) (sym (append-nil run))
lines-append (c ∷ l) t run h = rw h.0 (
    lines-append l t (run ++ c ∷ []) h.1
    ∙ ap (λ u. strip_cr u ∷ lines_from t []) (append_assoc run (c ∷ []) l))
