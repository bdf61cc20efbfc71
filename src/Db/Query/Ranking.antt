-- ===== src/Db/Query/Ranking.antt =====
-- The order of the programs that `query_proc` of src/db.rs returns.
use netmeter.Prelude.{
  ℕ, zero, suc, ◌≤◌, ◌≡◌, true, false, [], ◌∷◌, Map, Text, All, All-map, take, length, length-take,
  arith, inl, inr, Bool-cases,
}
use netmeter.Prelude.Int.{ℤ, ◌+ℤ◌, ◌≤ℤ◌, leb_ℤ}
use netmeter.Db.{Db}
use netmeter.Db.Query.{rank, biggest_first, by_comm, query_proc}

-- Received and sent bytes together.
abbrev pub both_ways : Text × (ℤ × ℤ) → ℤ
both_ways e = e.1.0 +ℤ e.1.1

-- No program comes before one with more bytes.
abbrev pub IsRanked : Map Text (ℤ × ℤ) → Type 0
IsRanked [] = Unit
IsRanked (e ∷ t) = All (λ x. both_ways x ≤ℤ both_ways e) t × IsRanked t

le_of : (a b : ℤ) → leb_ℤ a b ≡ true → a ≤ℤ b
le_of a b h = ground arith

ge_of : (a b : ℤ) → leb_ℤ a b ≡ false → b ≤ℤ a
ge_of a b h = ground arith

le_trans_ℤ : (a b c : ℤ) → a ≤ℤ b → b ≤ℤ c → a ≤ℤ c
le_trans_ℤ a b c p q = omega (arith, p, q)

All-rank :
    (m : ℤ) (e : Text × (ℤ × ℤ)) (t : Map Text (ℤ × ℤ))
    → both_ways e ≤ℤ m
    → All (λ x. both_ways x ≤ℤ m) t
    → All (λ x. both_ways x ≤ℤ m) (rank e t)
unfolding rank
All-rank m e [] p a = (p, tt)
All-rank m e (h ∷ t) p a = elim (Bool-cases (leb_ℤ (both_ways h) (both_ways e))) [
  | inl more ↦ rw more (p, a)
  | inr less ↦ rw less (a.0, All-rank m e t p a.1)
]

rank-IsRanked : (e : Text × (ℤ × ℤ)) (t : Map Text (ℤ × ℤ)) → IsRanked t → IsRanked (rank e t)
unfolding rank
rank-IsRanked e [] r = (tt, tt)
rank-IsRanked e (h ∷ t) r = elim (Bool-cases (leb_ℤ (both_ways h) (both_ways e))) [
  | inl more ↦
      let p = le_of (both_ways h) (both_ways e) more in
      rw more
        ((p, All-map (λ x q. le_trans_ℤ (both_ways x) (both_ways h) (both_ways e) q p) t r.0), r)
  | inr less ↦ rw less (
    All-rank (both_ways h) e t (ge_of (both_ways h) (both_ways e) less) r.0,
    rank-IsRanked e t r.1,
  )
]

pub biggest_first-IsRanked : (t : Map Text (ℤ × ℤ)) → IsRanked (biggest_first t)
unfolding biggest_first
biggest_first-IsRanked [] = tt
biggest_first-IsRanked (e ∷ t) = rank-IsRanked e (biggest_first t) (biggest_first-IsRanked t)

All-take :
    (m : ℤ) (n : ℕ) (t : Map Text (ℤ × ℤ))
    → All (λ x. both_ways x ≤ℤ m) t
    → All (λ x. both_ways x ≤ℤ m) (take n t)
All-take m zero t a = tt
All-take m (suc n) [] a = tt
All-take m (suc n) (x ∷ t) a = (a.0, All-take m n t a.1)

take-IsRanked : (n : ℕ) (t : Map Text (ℤ × ℤ)) → IsRanked t → IsRanked (take n t)
take-IsRanked zero t r = tt
take-IsRanked (suc n) [] r = tt
take-IsRanked (suc n) (e ∷ t) r = (All-take (both_ways e) n t r.0, take-IsRanked n t r.1)

-- The programs that query_proc returns are at most as many as its limit, and none comes before one
-- with more bytes.
query_proc-IsRanked :
    (db : Db) (from : ℤ) (limit : ℕ)
    → IsRanked (query_proc db from limit) × (length (query_proc db from limit) ≤ limit)
unfolding query_proc
query_proc-IsRanked db from limit =
    let ranked = biggest_first (by_comm from db.proc_hourly) in
    (
      take-IsRanked limit ranked (biggest_first-IsRanked (by_comm from db.proc_hourly)),
      omega (arith, length-take limit ranked),
    )
