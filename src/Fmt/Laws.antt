-- ===== src/Fmt/Laws.antt =====
-- The width of the bars of src/fmtx.rs.
use netmeter.Prelude.{
  ℕ, zero, suc, ◌-◌, ◌≤◌, ◌≡◌, refl, ◌∙◌, ap, false, length, replicate, length-append, Bool-cases,
  inl, inr, arith,
}
use netmeter.Prelude.Float.{Float, Printing, PrintingLaws, exact_limit}
use netmeter.Fmt.{clamp, fill, bar, full_block, light_block}

length-replicate : (n c : ℕ) → length (replicate n c) ≡ n
length-replicate zero c = refl
length-replicate (suc n) c = ap suc (length-replicate n c)

module _ (f : Float) (p : Printing f) (laws : PrintingLaws f p) where
  clamp_below : (x : f.Real) → f.lt (f.literal 1 1) (clamp f p x) ≡ false
  unfolding clamp
  clamp_below x = elim (Bool-cases (f.lt x (f.literal 0 1))) [
    | inl low ↦ rw low laws.zero_not_above
    | inr high ↦ rw high (elim (Bool-cases (f.lt (f.literal 1 1) x)) [
      | inl above ↦ rw above laws.one_not_above
      | inr below ↦ rw below below
    ])
  ]

  fill-le-width : (frac : f.Real) (w : ℕ) → w ≤ exact_limit → fill f p frac w ≤ w
  unfolding fill
  fill-le-width frac w h = laws.round_mul (clamp f p frac) w h (clamp_below frac)

  -- Where floating point obeys its laws, a bar of a width that is exact in floating point has just
  -- this width for every fraction, and its filled part does not exceed it.
  bar-length :
      (frac : f.Real) (w : ℕ)
      → w ≤ exact_limit
      → (fill f p frac w ≤ w) × (length (bar f p frac w) ≡ w)
  unfolding bar
  bar-length frac w h =
      let fits = fill-le-width frac w h in
      (
        fits,
        length-append (replicate (fill f p frac w) full_block) _
            ∙ omega (
              arith,
              fits,
              length-replicate (fill f p frac w) full_block,
              length-replicate (w - fill f p frac w) light_block,
            ),
      )
