-- ===== src/Db/Window/Keys.antt =====
-- The keys of budget_events in src/db.rs as names of their windows.
use netmeter.Prelude.{ℕ, ◌≡◌, refl, ap, ◌∙◌, ◌++◌, ◌∷◌, Bool, Text, All-map, arith, ◌↔◌}
use netmeter.Prelude.Int.{ℤ, pos, negsuc, ◌≤ℤ◌}
use netmeter.Prelude.Decimal.{print_nat}
use netmeter.Prelude.Decimal.Laws.{padded-injective, padded-All}
use netmeter.Prelude.Strings.Split.{IsWithout, cut-injective}
use netmeter.Db.Time.{Calendar, Date, budget_window_start}
use netmeter.Db.Window.{budget_key, pad, pad_int}

-- The number behind the colon, for a year that is not negative.
abbrev date_text : ℕ → ℕ → ℕ → Text
date_text y m d = pad 4 (print_nat y) ++ b'-' ∷ (pad 2 (print_nat m) ++ b'-' ∷ pad 2 (print_nat d))

pad-IsWithout : (width n : ℕ) → IsWithout b'-' (pad width (print_nat n))
pad-IsWithout width n = All-map (λ c digit. ground (arith, digit)) _ (padded-All _ n)

date_text-injective :
    (y m d y' m' d' : ℕ) → date_text y m d ≡ date_text y' m' d' → (y ≡ y') × ((m ≡ m') × (d ≡ d'))
date_text-injective y m d y' m' d' same =
    let (years, rest) = cut-injective b'-' _ _ _ _ (pad-IsWithout 4 y) (pad-IsWithout 4 y') same in
    let (months, days) = cut-injective b'-' _ _ _ _ (pad-IsWithout 2 m) (pad-IsWithout 2 m') rest in
    (
      padded-injective _ _ y y' years,
      (padded-injective _ _ m m' months, padded-injective _ _ d d' days),
    )

-- The date on which a window begins.
abbrev pub first_date : Calendar → ℤ → Bool → Text → Date
first_date j ts local period = (j.datetime local (budget_window_start j ts local period)).date

same_parts :
    (y y' : ℤ) (m d m' d' : ℕ)
    → pos 0 ≤ℤ y
    → pos 0 ≤ℤ y'
    → (pad_int 4 y ++ b'-' ∷ (pad 2 (print_nat m) ++ b'-' ∷ pad 2 (print_nat d)))
      ≡ (pad_int 4 y' ++ b'-' ∷ (pad 2 (print_nat m') ++ b'-' ∷ pad 2 (print_nat d')))
    → (y ≡ y') × ((m ≡ m') × (d ≡ d'))
same_parts (pos y) (pos y') m d m' d' h k same =
    let (years, rest) = date_text-injective y m d y' m' d' same in (ap pos years, rest)
same_parts (pos y) (negsuc n) m d m' d' h k same = absurd (ground (arith, k))
same_parts (negsuc n) y' m d m' d' h k same = absurd (ground (arith, h))

same_date :
    (a b : Date)
    → pos 0 ≤ℤ a.year
    → pos 0 ≤ℤ b.year
    → (pad_int 4 a.year ++ b'-' ∷ (pad 2 (print_nat a.month) ++ b'-' ∷ pad 2 (print_nat a.day)))
      ≡ (pad_int 4 b.year ++ b'-' ∷ (pad 2 (print_nat b.month) ++ b'-' ∷ pad 2 (print_nat b.day)))
    → a ≡ b
same_date a b h k same =
    let parts = same_parts a.year b.year a.month a.day b.month b.day h k same in
    let eta : (d : Date) → d ≡ record { year = d.year; month = d.month; day = d.day } = λ d. refl in
    rw (eta a, eta b, parts.0, parts.1.0, parts.1.1) refl

abbrev key_of : Text → Date → Text
key_of p d =
    p
    ++ b':'
      ∷ (pad_int 4 d.year ++ b'-' ∷ (pad 2 (print_nat d.month) ++ b'-' ∷ pad 2 (print_nat d.day)))

-- Two windows of periods without a colon, which begin in years that are not negative, have the same
-- row of budget_events exactly where their periods are the same and they begin on the same date.
pub budget_key_iff :
    (j : Calendar) (ts ts' : ℤ) (local local' : Bool) (p p' : Text)
    → IsWithout b':' p
    → IsWithout b':' p'
    → pos 0 ≤ℤ (first_date j ts local p).year
    → pos 0 ≤ℤ (first_date j ts' local' p').year
    → (budget_key j ts local p ≡ budget_key j ts' local' p')
      ↔ ((p ≡ p') × (first_date j ts local p ≡ first_date j ts' local' p'))
unfolding budget_key
budget_key_iff j ts ts' local local' p p' h h' y y' = (
  (λ same.
      let (periods, dates) = cut-injective b':' p _ p' _ h h' same in
      (periods, same_date (first_date j ts local p) (first_date j ts' local' p') y y' dates)),
  (λ alike. ap (λ q. key_of q (first_date j ts local p)) alike.0 ∙ ap (key_of p') alike.1),
)
