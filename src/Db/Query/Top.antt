-- ===== src/Db/Query/Top.antt =====
-- Which programs `query_proc` of src/db.rs returns: those with the most bytes, each with its sum.
use netmeter.Prelude.{
  Bool, true, false, ◌||◌, Option, none, get_or, some, IsMap, add_at, add_at-IsMap, lookup-upsert,
  arith, text_beq_iff, ℕ, zero, suc, ◌≡◌, refl, sym, ◌∙◌, ap, subst, ◌&&◌, List, [], ◌∷◌, ◌++◌, Map,
  Text, lookup, if◌then◌else◌, ◌==◌, text_eq, take, drop, length, length-take, min, amount_at,
  amount_at-add_at, inl, inr, Bool-cases,
}
use netmeter.Prelude.Int.{ℤ, pos, leb_ℤ}
use netmeter.Db.{Db}
use netmeter.Db.Query.{rank, biggest_first, by_comm, query_proc, bytes_amount, add_bytes}
use netmeter.Db.Query.Ranking.{IsRanked, both_ways, biggest_first-IsRanked}

-- The bytes of a program in the rows from a moment on.
unfoldable pub program_sum : ℤ → Text → Map (ℤ × Text) (ℤ × ℤ) → ℤ × ℤ
program_sum from comm [] = (pos 0, pos 0)
program_sum from comm (((hour, c), b) ∷ t) =
    let rest = program_sum from comm t in
    if leb_ℤ from hour && c == comm then add_bytes rest b else rest

amount_at-by_comm :
    (from : ℤ) (comm : Text) (t : Map (ℤ × Text) (ℤ × ℤ))
    → amount_at comm (by_comm from t) ≡ program_sum from comm t
unfolding by_comm program_sum lookup
amount_at-by_comm from comm [] = refl
amount_at-by_comm from comm (((hour, c), b) ∷ t) =
    let later = amount_at-by_comm from comm t in
    elim (Bool-cases (leb_ℤ from hour)) [
      | inr early ↦ rw early later
      | inl late ↦ rw late (
          amount_at-add_at c comm b (by_comm from t)
          ∙ ap (λ a. if c == comm then add_bytes a b else a) later)
    ]

-- A program has a row from a moment on.
unfoldable pub has_rows : ℤ → Text → Map (ℤ × Text) (ℤ × ℤ) → Bool
has_rows from comm [] = false
has_rows from comm (((hour, c), b) ∷ t) = (leb_ℤ from hour && c == comm) || has_rows from comm t

abbrev pub is_there : Option (ℤ × ℤ) → Bool
is_there none = false
is_there (some b) = true

by_comm-has_rows :
    (from : ℤ) (comm : Text) (t : Map (ℤ × Text) (ℤ × ℤ))
    → is_there (lookup comm (by_comm from t)) ≡ has_rows from comm t
unfolding by_comm has_rows lookup add_at
by_comm-has_rows from comm [] = refl
by_comm-has_rows from comm (((hour, c), b) ∷ t) =
    let later = by_comm-has_rows from comm t in
    elim (Bool-cases (leb_ℤ from hour)) [
      | inr early ↦ rw early later
      | inl late ↦
          rw (late, lookup-upsert c comm b (λ w. add_bytes w b) (by_comm from t))
            (elim (Bool-cases (c == comm)) [ inl same ↦ rw same refl | inr other ↦ rw other later ])
    ]

by_comm-IsMap : (from : ℤ) (t : Map (ℤ × Text) (ℤ × ℤ)) → IsMap (by_comm from t)
unfolding by_comm
by_comm-IsMap from [] = tt
by_comm-IsMap from (((hour, c), b) ∷ t) = elim (Bool-cases (leb_ℤ from hour)) [
  | inl late ↦ rw late (add_at-IsMap c b (by_comm from t) (by_comm-IsMap from t))
  | inr early ↦ rw early (by_comm-IsMap from t)
]

lookup-cons :
    (e : Text × (ℤ × ℤ)) (t : Map Text (ℤ × ℤ)) (k : Text)
    → lookup k (e ∷ t) ≡ (if e.0 == k then some e.1 else lookup k t)
unfolding lookup
lookup-cons e t k = refl

split_new :
    (e h : Text × (ℤ × ℤ)) (t : Map Text (ℤ × ℤ))
    → lookup e.0 (h ∷ t) ≡ none
    → ((h.0 == e.0) ≡ false) × (lookup e.0 t ≡ none)
unfolding lookup
split_new e h t new = (ground (arith, new), ground (arith, new))

not_first :
    (e h : Text × (ℤ × ℤ))
    → (h.0 == e.0) ≡ false
    → (o : Option (ℤ × ℤ)) → (if e.0 == h.0 then some e.1 else o) ≡ o
not_first e h apart o = ground (arith, apart, text_beq_iff h.0 e.0, text_beq_iff e.0 h.0)

differ :
    (e h : Text × (ℤ × ℤ)) (k : Text)
    → (h.0 == e.0) ≡ false
    → (o : Option (ℤ × ℤ))
    → (if h.0 == k then some h.1 else if e.0 == k then some e.1 else o)
      ≡ (if e.0 == k then some e.1 else if h.0 == k then some h.1 else o)
differ e h k apart o =
    ground (arith, apart, text_beq_iff h.0 k, text_beq_iff e.0 k, text_beq_iff h.0 e.0)

-- Ranking an entry with a new key changes no lookup.
lookup-rank :
    (e : Text × (ℤ × ℤ)) (t : Map Text (ℤ × ℤ)) (k : Text)
    → lookup e.0 t ≡ none
    → lookup k (rank e t) ≡ lookup k (e ∷ t)
unfolding rank lookup
lookup-rank e [] k new = refl
lookup-rank e (h ∷ t) k new =
    let (apart, rest) = split_new e h t new in
    elim (Bool-cases (leb_ℤ (both_ways h) (both_ways e))) [
      | inl more ↦ rw more refl
      | inr less ↦ rw (less, lookup-rank e t k rest) (differ e h k apart (lookup k t))
    ]

rank-IsMap :
    (e : Text × (ℤ × ℤ)) (t : Map Text (ℤ × ℤ)) → lookup e.0 t ≡ none → IsMap t → IsMap (rank e t)
unfolding rank
rank-IsMap e [] new m = unfold lookup in (refl, tt)
rank-IsMap e (h ∷ t) new m = elim (Bool-cases (leb_ℤ (both_ways h) (both_ways e))) [
  | inl more ↦ rw more (new, m)
  | inr less ↦
      let (apart, rest) = split_new e h t new in
      rw less (
        lookup-rank e t h.0 rest ∙ lookup-cons e t h.0 ∙ not_first e h apart (lookup h.0 t) ∙ m.0,
        rank-IsMap e t rest m.1,
      )
]

biggest_first-lookup :
    (t : Map Text (ℤ × ℤ))
    → IsMap t
    → IsMap (biggest_first t) × ((k : Text) → lookup k (biggest_first t) ≡ lookup k t)
unfolding biggest_first
biggest_first-lookup [] m = (tt, λ k. refl)
biggest_first-lookup (e ∷ t) m =
    let (map, same) = biggest_first-lookup t m.1 in
    let new : lookup e.0 (biggest_first t) ≡ none = same e.0 ∙ m.0 in
    (
      rank-IsMap e (biggest_first t) new map,
      λ k.
          lookup-rank e (biggest_first t) k new
          ∙ lookup-cons e (biggest_first t) k
          ∙ ap (λ o. if e.0 == k then some e.1 else o) (same k)
          ∙ sym (lookup-cons e t k),
    )

take-drop {ℓ} : {A : Type ℓ} (n : ℕ) (xs : List A) → take n xs ++ drop n xs ≡ xs
take-drop zero xs = refl
take-drop (suc n) [] = refl
take-drop (suc n) (x ∷ xs) = ap (λ ys. x ∷ ys) (take-drop n xs)

-- With others behind them, some programs are all that have rows from a moment on, each once with
-- the sum over its rows, and none before one with more bytes; and they are as many as a limit
-- allows.
pub record IsTop (rows : Map (ℤ × Text) (ℤ × ℤ)) (from : ℤ) (limit : ℕ) (first : Map Text (ℤ × ℤ))
    : Type 0 where
  pub others : Map Text (ℤ × ℤ)
  pub once : IsMap (first ++ others)
  pub programs : (comm : Text) → is_there (lookup comm (first ++ others)) ≡ has_rows from comm rows
  pub sums : (comm : Text) → amount_at comm (first ++ others) ≡ program_sum from comm rows
  pub ranked : IsRanked (first ++ others)
  pub size : length first ≡ min limit (length (first ++ others))

-- What query_proc returns is the first part of an arrangement of exactly the programs with rows
-- from the moment on, each once with the sum over its rows from that moment on, in which none comes
-- before one with more bytes; and it is as long as the limit and the number of these programs
-- allow.
pub query_proc-IsTop :
    (db : Db) (from : ℤ) (limit : ℕ) → IsTop db.proc_hourly from limit (query_proc db from limit)
unfolding query_proc
query_proc-IsTop db from limit =
    let sums = by_comm from db.proc_hourly in
    let all = biggest_first sums in
    let (map, same) = biggest_first-lookup sums (by_comm-IsMap from db.proc_hourly) in
    let whole : all ≡ take limit all ++ drop limit all = sym (take-drop limit all) in
    record {
      others = drop limit all;
      once = subst IsMap whole map;
      programs = λ comm.
          subst (λ t. is_there (lookup comm t) ≡ has_rows from comm db.proc_hourly) whole
            (ap is_there (same comm) ∙ by_comm-has_rows from comm db.proc_hourly);
      sums = λ comm.
          subst (λ t. amount_at comm t ≡ program_sum from comm db.proc_hourly) whole
            (ap (λ o. get_or o (pos 0, pos 0)) (same comm)
              ∙ amount_at-by_comm from comm db.proc_hourly);
      ranked = subst IsRanked whole (biggest_first-IsRanked sums);
      size = length-take limit all ∙ ap (λ t. min limit (length t)) whole;
    }
