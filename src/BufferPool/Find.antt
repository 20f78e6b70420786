-- ===== src/BufferPool/Find.antt =====
-- The two searches of src/buffer_pool.c: for the frame of an address, and for a frame to replace.
use my_jql.Prelude.{
  ℕ, zero, suc, ◌+◌, ◌≤◌, ◌<◌, ◌≡◌, ◌≢◌, refl, ap, ◌∙◌, inl, inr, ℤ, ◌=ℤ◌, =ℤ_iff, none, some, List,
  [], ◌∷◌, ◌==◌, ltb, Bool-cases, Option-cases, All, ltb→ge, arith, true,
}
use mathlib.Core.Path.{subst}
use native.Mathlib.Nat.{le_trans}
use native.Mathlib.Decide.{ℕ_discrete}
use my_jql.BufferPool.{find_frame, changeable, least_used, choose}

module _ (addrs : ℕ → ℤ) (addr : ℤ) where
  pub find_frame-some :
      (rounds i k : ℕ)
      → find_frame addrs addr rounds i ≡ some k
      → (i ≤ k) × (k < i + rounds) × (addrs k ≡ addr)
  unfolding find_frame
  find_frame-some zero i k e = cc
  find_frame-some (suc rounds) i k e = elim (Bool-cases (addrs i =ℤ addr)) [
    | inl here ↦
        let e' : i ≡ k = ground arith in
        (omega arith, omega arith, rw (← e') ((=ℤ_iff (addrs i) addr).0 here))
    | inr next ↦
        let r = find_frame-some rounds (i + 1) k (ground arith) in
        (omega (arith, r.0), omega (arith, r.1), r.2)
  ]

  pub find_frame-none :
      (rounds i j : ℕ)
      → find_frame addrs addr rounds i ≡ none
      → i ≤ j
      → j < i + rounds
      → addrs j ≢ addr
  unfolding find_frame
  find_frame-none zero i j e lo hi = absurd (omega arith)
  find_frame-none (suc rounds) i j e lo hi = elim (Bool-cases (addrs i =ℤ addr)) [
    | inl here ↦ absurd (ground arith)
    | inr next ↦ elim (ℕ_discrete i j) [
      | yes p ↦ λ q. cc (next, (=ℤ_iff (addrs i) addr).1 (ap addrs p ∙ q))
      | no ne ↦ find_frame-none rounds (i + 1) j (ground arith) (omega arith) (omega arith)
    ]
  ]

  -- The only frame that holds the address is found.
  pub find_frame_unique :
      (rounds i k : ℕ)
      → i ≤ k
      → k < i + rounds
      → addrs k ≡ addr
      → ((j : ℕ) → i ≤ j → j < i + rounds → addrs j ≡ addr → j ≡ k)
      → find_frame addrs addr rounds i ≡ some k
  unfolding find_frame
  find_frame_unique zero i k lo hi at only = absurd (omega arith)
  find_frame_unique (suc rounds) i k lo hi at only = elim (Bool-cases (addrs i =ℤ addr)) [
    | inl here ↦
        let e : i ≡ k = only i (omega arith) (omega arith) ((=ℤ_iff (addrs i) addr).0 here) in
        rw here (ap some e)
    | inr next ↦
        let ne : i ≢ k = λ p. cc (next, (=ℤ_iff (addrs i) addr).1 (ap addrs p ∙ at)) in
        rw next (
          find_frame_unique rounds (i + 1) k (omega arith) (omega arith) at
            λ j lo' hi'. only j (omega arith) (omega arith))
  ]

  pub find_frame-absent :
      (rounds i : ℕ)
      → ((j : ℕ) → i ≤ j → j < i + rounds → addrs j ≢ addr)
      → find_frame addrs addr rounds i ≡ none
  unfolding find_frame
  find_frame-absent zero i absent = refl
  find_frame-absent (suc rounds) i absent = elim (Bool-cases (addrs i =ℤ addr)) [
    | inl here ↦ absurd (absent i (omega arith) (omega arith) ((=ℤ_iff (addrs i) addr).0 here))
    | inr next ↦
        rw next (find_frame-absent rounds (i + 1) λ j lo hi. absent j (omega arith) (omega arith))
  ]

module _ (ref : ℕ → ℕ) (Q : ℕ → Type 0) where
  changeable-All :
      (rounds i : ℕ)
      → ((j : ℕ) → i ≤ j → j < i + rounds → ref j ≡ 0 → Q j)
      → All Q (changeable ref rounds i)
  unfolding changeable
  changeable-All zero i h = tt
  changeable-All (suc rounds) i h =
      let rest = changeable-All rounds (i + 1) λ j lo hi. h j (omega arith) (omega arith) in
      elim (Bool-cases (ref i == 0)) [
        | inl free ↦ rw free (h i (omega arith) (omega arith) (ground arith), rest)
        | inr held ↦ rw held rest
      ]

  changeable_complete :
      (rounds i j : ℕ) → All Q (changeable ref rounds i) → i ≤ j → j < i + rounds → ref j ≡ 0 → Q j
  unfolding changeable
  changeable_complete zero i j all lo hi free = absurd (omega arith)
  changeable_complete (suc rounds) i j all lo hi free = elim (ℕ_discrete i j) [
    | yes e ↦
        let here : (ref i == 0) ≡ true = ground (arith, ap ref e) in subst Q e (rw here at all).0
    | no ne ↦ elim (Bool-cases (ref i == 0)) [
      | inl f ↦
          changeable_complete rounds (i + 1) j (rw f at all).1 (omega arith) (omega arith) free
      | inr h ↦ changeable_complete rounds (i + 1) j (rw h at all) (omega arith) (omega arith) free
    ]
  ]

module _ (cnt : ℕ → ℕ) where
  least_used-All :
      (Q : ℕ → Type 0) (target : ℕ) (rest : List ℕ)
      → Q target
      → All Q rest
      → Q (least_used cnt target rest)
  unfolding least_used
  least_used-All Q target [] h all = h
  least_used-All Q target (i ∷ rest) h all = elim (Bool-cases (ltb (cnt i) (cnt target))) [
    | inl less ↦ rw less (least_used-All Q i rest all.0 all.1)
    | inr more ↦ rw more (least_used-All Q target rest h all.1)
  ]

  least_used-le : (target : ℕ) (rest : List ℕ) → cnt (least_used cnt target rest) ≤ cnt target
  unfolding least_used
  least_used-le target [] = omega arith
  least_used-le target (i ∷ rest) = ground (arith, least_used-le i rest, least_used-le target rest)

  least_used-le_All :
      (t target : ℕ) (rest : List ℕ)
      → least_used cnt target rest ≡ t
      → All (λ i. cnt t ≤ cnt i) rest
  unfolding least_used
  least_used-le_All t target [] e = tt
  least_used-le_All t target (i ∷ rest) e = elim (Bool-cases (ltb (cnt i) (cnt target))) [
    | inl less ↦
        let e' : least_used cnt i rest ≡ t = ground arith in
        (rw (← e') (least_used-le i rest), least_used-le_All t i rest e')
    | inr more ↦
        let e' : least_used cnt target rest ≡ t = ground arith in
        (
          rw (← e') (le_trans (least_used-le target rest) (ltb→ge _ _ more)),
          least_used-le_All t target rest e',
        )
  ]

  -- The bound on the candidates behind the first carries over to the whole list.
  choose-All :
      (candidates : List ℕ) (t : ℕ)
      → choose cnt candidates ≡ some t
      → All (λ i. cnt t ≤ cnt i) candidates
  unfolding choose
  choose-All [] t e = tt
  choose-All (i ∷ rest) t e =
      let e' : least_used cnt i rest ≡ t = ground arith in
      (rw (← e') (least_used-le i rest), least_used-le_All t i rest e')

  choose-member :
      (Q : ℕ → Type 0) (candidates : List ℕ) (t : ℕ)
      → choose cnt candidates ≡ some t
      → All Q candidates
      → Q t
  unfolding choose
  choose-member Q [] t e all = cc
  choose-member Q (i ∷ rest) t e all =
      let e' : least_used cnt i rest ≡ t = ground arith in
      subst Q e' (least_used-All Q i rest all.0 all.1)

  choose-none : (candidates : List ℕ) → choose cnt candidates ≡ none → candidates ≡ []
  unfolding choose
  choose-none [] e = refl
  choose-none (i ∷ rest) e = absurd (ground arith)

module _ (cnt ref : ℕ → ℕ) (rounds : ℕ) where
  -- A frame that `choose` returns for the frames that nobody holds is one of them, and none of them
  -- has a smaller count.
  pub choose-least :
      (t : ℕ)
      → choose cnt (changeable ref rounds 0) ≡ some t
      → (t < rounds) × (ref t ≡ 0) × ((j : ℕ) → j < rounds → ref j ≡ 0 → cnt t ≤ cnt j)
  choose-least t e =
      let member =
        choose-member cnt (λ i. (i < rounds) × (ref i ≡ 0)) (changeable ref rounds 0) t e
          (changeable-All ref _ rounds 0 λ j lo hi free. (omega arith, free)) in
      (
        member.0,
        member.1,
        λ j lt free.
            changeable_complete ref (λ i. cnt t ≤ cnt i) rounds 0 j
              (choose-All cnt (changeable ref rounds 0) t e) (omega arith) (omega arith) free,
      )

  pub choose_total :
      (j : ℕ) → j < rounds → ref j ≡ 0 → (t : ℕ) × (choose cnt (changeable ref rounds 0) ≡ some t)
  choose_total j lt free = elim (Option-cases (choose cnt (changeable ref rounds 0))) [
    | inl e ↦ absurd (
        changeable_complete ref (λ _. ⊥) rounds 0 j
          (rw (choose-none cnt (changeable ref rounds 0) e) tt) (omega arith) (omega arith) free)
    | inr some_t ↦ some_t
  ]
