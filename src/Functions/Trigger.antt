-- ===== src/Functions/Trigger.antt =====
-- _FunctionState.Check: when a long function is reported, and with what confidence.
use myframe.Common.{
  ℕ, zero, suc, ◌*◌, ◌^◌, ◌≤◌, ◌<◌, ◌≡◌, ◌⊎◌, refl, ap, Bool, true, false, ◌&&◌, [], ◌∷◌, leb, ltb,
  leb→le, ltb→lt, le→leb, if◌then◌else◌, inl, inr, Bool-cases, arith,
}
use native.Mathlib.Nat.{pow-suc}
use myframe.Categories.{Diagnostic}
use myframe.Functions.{FunctionState, doublings, base_trigger, check_length, long_function}

doublings-le : (cap base lines : ℕ) → doublings cap base lines ≤ cap
unfolding doublings
doublings-le zero base lines = omega arith
doublings-le (suc cap) base lines = ground (arith, doublings-le cap (base * 2) lines)

doubled : (base v : ℕ) → base * 2 ^ suc v ≡ base * 2 * 2 ^ v
doubled base v = rw pow-suc (omega arith)

le-of_mul_pow : (b n v : ℕ) → b * 2 ^ v ≤ n → b ≤ n
le-of_mul_pow b n zero h = omega arith
le-of_mul_pow b n (suc v) h =
    let g : b * 2 * 2 ^ v ≤ n = rw (← doubled b v) h in omega (arith, le-of_mul_pow (b * 2) n v g)

-- The base can be doubled `v` times without passing the lines, if `v` is within the cap.
le-doublings :
    (cap base lines v : ℕ) → v ≤ cap → base * 2 ^ v ≤ lines → v ≤ doublings cap base lines
unfolding doublings
le-doublings cap base lines zero le h = omega arith
le-doublings zero base lines (suc v) le h = absurd (omega arith)
le-doublings (suc cap) base lines (suc v) le h =
    let g : base * 2 * 2 ^ v ≤ lines = rw (← doubled base v) h in
    let fits : base * 2 ≤ lines = le-of_mul_pow (base * 2) lines v g in
    rw (le→leb _ _ fits) (omega (arith, le-doublings cap (base * 2) lines v (omega arith) g))

-- The base, doubled as often as the function says, does not pass the lines.
doublings-fit : (cap base lines : ℕ) → base ≤ lines → base * 2 ^ doublings cap base lines ≤ lines
unfolding doublings
doublings-fit zero base lines h = omega arith
doublings-fit (suc cap) base lines h = elim (Bool-cases (leb (base * 2) lines)) [
  | inl fits ↦ rw fits (
      rw (doubled base (doublings cap (base * 2) lines))
        (doublings-fit cap (base * 2) lines (leb→le _ _ fits)))
  | inr over ↦ rw over (omega arith)
]

leb-false : (a b : ℕ) → leb a b ≡ false → b < a
leb-false a b h = ground arith

-- Short of the cap, one more doubling passes the lines.
doublings-most :
    (cap base lines : ℕ)
    → (doublings cap base lines ≡ cap) ⊎ (lines < base * 2 ^ suc (doublings cap base lines))
unfolding doublings
doublings-most zero base lines = inl refl
doublings-most (suc cap) base lines = elim (Bool-cases (leb (base * 2) lines)) [
  | inr over ↦ rw over (inr (rw (doubled base 0) (omega (arith, leb-false _ _ over))))
  | inl fits ↦ rw fits (elim (doublings-most cap (base * 2) lines) [
    | inl all ↦ inl (ap suc all)
    | inr most ↦ inr (rw (doubled base (suc (doublings cap (base * 2) lines))) most)
  ])
]

ltb-false : (a b : ℕ) → ltb a b ≡ false → b ≤ a
ltb-false a b h = ground arith

check_length-if :
    (verbose line : ℕ) (s : FunctionState) {b : Bool}
    → (s.in_a_function && ltb (base_trigger s * 2 ^ verbose) s.lines_in_function) ≡ b
    → check_length verbose line s ≡ (if b then long_function verbose line s ∷ [] else [])
unfolding check_length
check_length-if verbose line s e = ap (λ b. if b then long_function verbose line s ∷ [] else []) e

-- A call reports nothing, outside a function or up to base * 2 ^ verbose lines; or it reports once,
-- inside a function and above that, and then the confidence is the greatest number of times, up to 5,
-- that the base can be doubled without passing the lines, and no less than a verbosity of up to 5, so
-- that _ShouldPrintError does not hide the report for its confidence.
pub check_length_lem :
    (verbose line : ℕ) (s : FunctionState)
    → ((check_length verbose line s ≡ [])
        × ((s.in_a_function ≡ false) ⊎ (s.lines_in_function ≤ base_trigger s * 2 ^ verbose)))
      ⊎ ((d : Diagnostic) × (check_length verbose line s ≡ d ∷ [])
          × (s.in_a_function ≡ true)
          × (base_trigger s * 2 ^ verbose < s.lines_in_function)
          × (base_trigger s * 2 ^ d.confidence ≤ s.lines_in_function)
          × (d.confidence ≤ 5)
          × ((d.confidence ≡ 5) ⊎ (s.lines_in_function < base_trigger s * 2 ^ suc d.confidence))
          × (verbose ≤ 5 → verbose ≤ d.confidence))
check_length_lem verbose line s = elim (Bool-cases s.in_a_function) [
  | inr out ↦ inl (check_length-if verbose line s {b = false} (ground arith), inl out)
  | inl inside ↦ elim (Bool-cases (ltb (base_trigger s * 2 ^ verbose) s.lines_in_function)) [
    | inr few ↦
        inl (check_length-if verbose line s {b = false} (ground arith), inr (ltb-false _ _ few))
    | inl many ↦
        let above = ltb→lt _ _ many in
        inr (
          long_function verbose line s,
          check_length-if verbose line s {b = true} (ground arith),
          inside,
          above,
          doublings-fit 5 (base_trigger s) s.lines_in_function
              (le-of_mul_pow (base_trigger s) s.lines_in_function verbose (omega arith)),
          doublings-le 5 (base_trigger s) s.lines_in_function,
          doublings-most 5 (base_trigger s) s.lines_in_function,
          λ le. le-doublings 5 (base_trigger s) s.lines_in_function verbose le (omega arith),
        )
  ]
]
