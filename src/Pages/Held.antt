-- ===== src/Pages/Held.antt =====
-- The pages that a client of src/buffer_pool.c holds, as a list with repetitions, and the counts of
-- holders of all frames.
use my_jql.Prelude.{
  ℕ, zero, suc, ◌+◌, ◌≤◌, ◌<◌, ◌≡◌, ◌≢◌, refl, List, [], ◌∷◌, length, ◌==◌, if◌then◌else◌,
  Bool-cases, true, false, inl, inr, arith,
}
use native.Mathlib.Decide.{ℕ_discrete}

-- How often page `n` is held.
abbrev pub count : ℕ → List ℕ → ℕ
count n [] = 0
count n (m ∷ ms) = let rest = count n ms in if m == n then suc rest else rest

-- One holder of page `n` lets it go.
abbrev pub remove : ℕ → List ℕ → List ℕ
remove n [] = []
remove n (m ∷ ms) = let rest = remove n ms in if m == n then ms else m ∷ rest

pub count_le : (n : ℕ) (ms : List ℕ) → count n ms ≤ length ms
count_le n [] = omega arith
count_le n (m ∷ ms) = ground (arith, count_le n ms)

pub count-cons_self : (n : ℕ) (ms : List ℕ) → count n (n ∷ ms) ≡ count n ms + 1
count-cons_self n ms = ground arith

pub count-cons_ne : (m n : ℕ) (ms : List ℕ) → m ≢ n → count m (n ∷ ms) ≡ count m ms
count-cons_ne m n ms ne = ground arith

pub count-remove_self :
    (n : ℕ) (ms : List ℕ) → 0 < count n ms → count n (remove n ms) + 1 ≡ count n ms
count-remove_self n [] held = absurd (omega arith)
count-remove_self n (m ∷ ms) held = elim (Bool-cases (m == n)) [
  | inl e ↦ rw e (omega arith)
  | inr e ↦ rw e (rw e (count-remove_self n ms (rw e at held)))
]

pub count-remove_ne : (m n : ℕ) (ms : List ℕ) → m ≢ n → count m (remove n ms) ≡ count m ms
count-remove_ne m n [] ne = refl
count-remove_ne m n (k ∷ ms) ne = elim (Bool-cases (k == n)) [
  | inl e ↦ let e' : (k == m) ≡ false = ground arith in rw (e, e') refl
  | inr e ↦ rw e (elim (Bool-cases (k == m)) [
    | inl e' ↦ rw e' (omega (arith, count-remove_ne m n ms ne))
    | inr e' ↦ rw e' (count-remove_ne m n ms ne)
  ])
]

pub length-remove : (n : ℕ) (ms : List ℕ) → 0 < count n ms → length (remove n ms) + 1 ≡ length ms
length-remove n [] held = absurd (omega arith)
length-remove n (m ∷ ms) held = elim (Bool-cases (m == n)) [
  | inl e ↦ rw e (omega arith)
  | inr e ↦ rw e (omega (arith, length-remove n ms (rw e at held)))
]

-- The holders of the `rounds` frames from `k` on.
abbrev pub total : (ℕ → ℕ) → (rounds k : ℕ) → ℕ
total ref zero k = 0
total ref (suc rounds) k = ref k + total ref rounds (k + 1)

-- With fewer holders than frames, some frame is held by nobody.
pub free_frame :
    (ref : ℕ → ℕ) (rounds k : ℕ)
    → total ref rounds k < rounds
    → (j : ℕ) × (k ≤ j) × (j < k + rounds) × (ref j ≡ 0)
free_frame ref zero k few = absurd (omega arith)
free_frame ref (suc rounds) k few = elim (ℕ_discrete (ref k) 0) [
  | yes e ↦ (k, omega arith, omega arith, e)
  | no ne ↦
      let (j, lo, hi, e) = free_frame ref rounds (k + 1) (omega arith) in
      (j, omega arith, omega arith, e)
]

pub total-same :
    (ref ref' : ℕ → ℕ) (rounds k : ℕ)
    → ((j : ℕ) → k ≤ j → j < k + rounds → ref' j ≡ ref j)
    → total ref' rounds k ≡ total ref rounds k
total-same ref ref' zero k same = refl
total-same ref ref' (suc rounds) k same = omega (
  arith,
  same k (omega arith) (omega arith),
  total-same ref ref' rounds (k + 1) λ j lo hi. same j (omega arith) (omega arith),
)

-- When the count of one frame changes, so does the sum.
pub total-change :
    (ref ref' : ℕ → ℕ) (rounds k t : ℕ)
    → k ≤ t
    → t < k + rounds
    → ((j : ℕ) → k ≤ j → j < k + rounds → j ≢ t → ref' j ≡ ref j)
    → total ref' rounds k + ref t ≡ total ref rounds k + ref' t
total-change ref ref' zero k t lo hi same = absurd (omega arith)
total-change ref ref' (suc rounds) k t lo hi same = elim (ℕ_discrete k t) [
  | yes e ↦ rw e (
      omega (
        arith,
        total-same ref ref' rounds (t + 1)
            λ j lo' hi'. same j (omega arith) (omega arith) (λ p. absurd (omega arith)),
      ))
  | no ne ↦ omega (
    arith,
    same k (omega arith) (omega arith) ne,
    total-change ref ref' rounds (k + 1) t (omega arith) (omega arith)
        λ j lo' hi' ne'. same j (omega arith) (omega arith) ne',
  )
]

pub remove-cons_self : (n : ℕ) (ms : List ℕ) → remove n (n ∷ ms) ≡ ms
remove-cons_self n ms = let here : (n == n) ≡ true = ground arith in rw here refl
