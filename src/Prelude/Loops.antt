-- ===== src/Prelude/Loops.antt =====
-- Counted loops, with their invariant rule, and a check of every value of a small range.
use Prim.Native.Nat.{ℕ, zero, suc, ◌+◌, ◌<◌, ◌≤◌}
use mathlib.Core.Path.{◌≡◌, subst}
use mathlib.Core.Bool.{Bool, true, ◌&&◌}
use mathlib.Core.Logic.{◌≢◌, inl, inr}
use hyu_3rd_1se.Prelude.Tests.{ltb, ◌==◌, if◌then◌else◌, Bool-cases, ltb-false, lt→ltb}
use hyu_3rd_1se.Prelude.Results.{Result, ok, ◌>>=◌}
use native.Mathlib.Omega.{arith}

-- The loop `for(k = from; k < from + count; k++)` around `step`, which updates the variables `vars`.
unfoldable pub for_range {ℓ} : {V : Type ℓ} → ℕ → ℕ → (ℕ → V → V) → V → V
for_range zero from step vars = vars
for_range (suc count) from step vars = for_range count (suc from) step (step from vars)

-- The same loop around a step that can fail.
unfoldable pub for_result {ℓ} : {V : Type ℓ} → ℕ → ℕ → (ℕ → V → Result V) → V → Result V
for_result zero from step vars = ok vars
for_result (suc count) from step vars =
    step from vars >>= λ vars'. for_result count (suc from) step vars'

-- What `step` carries from each index to the next holds behind the last one.
pub for_range-carries {ℓ κ} :
    {V : Type ℓ} (Inv : ℕ → V → Type κ) (step : ℕ → V → V)
    → ((k : ℕ) (vars : V) → Inv k vars → Inv (suc k) (step k vars))
    → (count from : ℕ) (vars : V) → Inv from vars
    → Inv (count + from) (for_range count from step vars)
unfolding for_range
for_range-carries Inv step carry zero from vars start =
    let none_left : zero + from ≡ from = omega arith in rw none_left start
for_range-carries Inv step carry (suc count) from vars start =
    let one_less : suc count + from ≡ count + suc from = omega arith in
    rw one_less
      (for_range-carries Inv step carry count (suc from) (step from vars) (carry from vars start))

-- The same for a loop from 0, where the step may use that its index is in the range.
pub for_range-upto {ℓ κ} :
    {V : Type ℓ} (Inv : ℕ → V → Type κ) (step : ℕ → V → V) (n : ℕ)
    → ((k : ℕ) (vars : V) → k < n → Inv k vars → Inv (suc k) (step k vars))
    → (vars : V) → Inv 0 vars
    → Inv n (for_range n 0 step vars)
for_range-upto {V = V} Inv step n carry vars start =
    let whole : n + 0 ≡ n = omega arith in
    subst (λ k. k ≤ n → Inv k (for_range n 0 step vars)) whole
      (for_range-carries (λ k (v : V). k ≤ n → Inv k v) step
        (λ k v keep l. carry k v (omega arith) (keep (omega arith))) n 0 vars (λ l. start))
      (omega arith)

-- A Boolean test at each number below a bound, and what a passed check means.
unfoldable pub check_below : (ℕ → Bool) → ℕ → Bool
check_below test zero = true
check_below test (suc bound) = check_below test bound && test bound

pub check_below-holds :
    (test : ℕ → Bool) (bound : ℕ)
    → check_below test bound ≡ true
    → (n : ℕ) → n < bound
    → test n ≡ true
unfolding check_below
check_below-holds test zero passed n small = elim small [ ]
check_below-holds test (suc bound) passed n small = elim (Bool-cases (n == bound)) [
  | inl last ↦ ground arith
  | inr before ↦ check_below-holds test bound (ground arith) n (ground arith)
]

-- A loop over an array that changes no more than the element at its index, by `g`.
module _ {A : Type 0} (g : A → A) (body : ℕ → (ℕ → A) → ℕ → A)
    (here : (u : ℕ → A) (i : ℕ) → body i u i ≡ g (u i))
    (elsewhere : (u : ℕ → A) (i j : ℕ) → i ≢ j → body i u j ≡ u j) where
  pointwise-step :
      (t : ℕ → A) (j i : ℕ) (u : ℕ → A)
      → u j ≡ (if ltb j i then g (t j) else t j)
      → body i u j ≡ (if ltb j (suc i) then g (t j) else t j)
  pointwise-step t j i u h = elim (Bool-cases (i == j)) [
    | inl e ↦
        let same : i ≡ j = ground arith in
        let h' : u j ≡ t j = rw (ltb-false j i (omega arith)) at h in
        rw (same, here u j, h', lt→ltb j (suc j) (omega arith))
    | inr e ↦
        let n : i ≢ j = ground arith in
        let t' : ltb j (suc i) ≡ ltb j i = ground arith in rw (t', elsewhere u i j n) h
  ]

  pub for_range-pointwise :
      (n : ℕ) (t : ℕ → A) (j : ℕ) → for_range n 0 body t j ≡ (if ltb j n then g (t j) else t j)
  for_range-pointwise n t j =
      let whole : n + 0 ≡ n = omega arith in
      subst (λ i. for_range n 0 body t j ≡ (if ltb j i then g (t j) else t j)) whole
        (for_range-carries (λ i (u : ℕ → A). u j ≡ (if ltb j i then g (t j) else t j)) body
          (pointwise-step t j) n 0 t (rw (ltb-false j 0 (omega arith))))
