-- ===== src/Tree/Scan.antt =====
-- The loops over the rows of a node in src/b_tree.c, with a comparison that may read other pages.
use my_jql.Prelude.{
  ℕ, zero, suc, ◌+◌, ◌≤◌, ◌<◌, ◌≡◌, ◌≢◌, refl, inl, inr, ℤ, pos, negsuc, ◌==◌, ltb, if◌then◌else◌,
  true, false, some, arith, lt_or_ge,
}
use native.Mathlib.Decide.{ℕ_discrete}
use my_jql.Exec.{Exec, ◌>>=◌}
use my_jql.Table.{Rid}
use my_jql.Tree.{is_negative, is_zero}
use my_jql.Tree.Search.{first_greater, first_equal}

-- What a comparison function returns for two keys that are numbers.
abbrev pub three_way : ℕ → ℕ → ℤ
three_way a b = if ltb a b then negsuc 0 else if a == b then pos 0 else pos 1

-- A comparison of the key `target` with the keys of rows, which keeps what `Keeps` says of the state.
abbrev pub Compares : {S : Type 0} → (S → Type 0) → (Rid → ℕ) → ℕ → (Rid → Exec S ℤ) → Type 0
Compares {S} Keeps key target compare =
    (rid : Rid) (s : S)
    → Keeps s
    → (s' : S) × (compare rid s ≡ some (three_way target (key rid), s')) × Keeps s'

-- The same of the first `count` rows of a node alone.
abbrev pub ComparesRows :
    {S : Type 0} → (S → Type 0) → (Rid → ℕ) → ℕ → (Rid → Exec S ℤ) → (ℕ → Rid) → ℕ → Type 0
ComparesRows {S} Keeps key target compare row_ptr count =
    (j : ℕ) (s : S)
    → j < count
    → Keeps s
    → (s' : S) × (compare (row_ptr j) s ≡ some (three_way target (key (row_ptr j)), s')) × Keeps s'

module _ {S : Type 0} (Keeps : S → Type 0) (key : Rid → ℕ) (target : ℕ) (compare : Rid → Exec S ℤ)
    (row_ptr : ℕ → Rid) (count : ℕ)
    (compares : ComparesRows Keeps key target compare row_ptr count) where
  -- Where `first_equal` stops.
  pub record Equal (rounds i : ℕ) (s : S) : Type 0 where
    pub at : ℕ
    pub s' : S
    pub finds : first_equal compare row_ptr rounds i s ≡ some (at, s')
    pub keeps : Keeps s'
    pub from : i ≤ at
    pub to : at ≤ i + rounds
    pub others : (j : ℕ) → i ≤ j → j < at → key (row_ptr j) ≢ target
    pub here : at < i + rounds → key (row_ptr at) ≡ target

  pub first_equal_lem : (rounds i : ℕ) (s : S) → i + rounds ≤ count → Keeps s → Equal rounds i s
  unfolding first_equal
  first_equal_lem zero i s fits keeps = record {
    at = i;
    s' = s;
    finds = refl;
    keeps = keeps;
    from = omega arith;
    to = omega arith;
    others = λ j lo hi. absurd (omega arith);
    here = λ lt. absurd (omega arith);
  }
  first_equal_lem (suc k) i s fits keeps =
      let (s1, said, keeps1) = compares i s (omega arith) keeps in
      elim (ℕ_discrete (key (row_ptr i)) target) [
        | yes e ↦
            let yes_zero : is_zero (three_way target (key (row_ptr i))) ≡ true = ground arith in
            record {
              at = i;
              s' = s1;
              finds = rw (said, ◌>>=◌, yes_zero) refl;
              keeps = keeps1;
              from = omega arith;
              to = omega arith;
              others = λ j lo hi. absurd (omega arith);
              here = λ lt. e;
            }
        | no ne ↦
            let rest = first_equal_lem k (i + 1) s1 (omega arith) keeps1 in
            let not_zero : is_zero (three_way target (key (row_ptr i))) ≡ false = ground arith in
            record {
              at = rest.at;
              s' = rest.s';
              finds = rw (said, ◌>>=◌, not_zero) rest.finds;
              keeps = rest.keeps;
              from = omega (arith, rest.from);
              to = omega (arith, rest.to);
              others = λ j lo hi. elim (ℕ_discrete j i) [
                | yes p ↦ rw p ne
                | no np ↦ rest.others j (omega arith) hi
              ];
              here = λ lt. rest.here (omega arith);
            }
      ]

  -- Where `first_greater` stops.
  pub record Greater (rounds i : ℕ) (s : S) : Type 0 where
    pub at : ℕ
    pub s' : S
    pub finds : first_greater compare row_ptr rounds i s ≡ some (at, s')
    pub keeps : Keeps s'
    pub from : i ≤ at
    pub to : at ≤ i + rounds
    pub below : (j : ℕ) → i ≤ j → j < at → key (row_ptr j) ≤ target
    pub above : at < i + rounds → target < key (row_ptr at)

  pub first_greater_lem : (rounds i : ℕ) (s : S) → i + rounds ≤ count → Keeps s → Greater rounds i s
  unfolding first_greater
  first_greater_lem zero i s fits keeps = record {
    at = i;
    s' = s;
    finds = refl;
    keeps = keeps;
    from = omega arith;
    to = omega arith;
    below = λ j lo hi. absurd (omega arith);
    above = λ lt. absurd (omega arith);
  }
  first_greater_lem (suc k) i s fits keeps =
      let (s1, said, keeps1) = compares i s (omega arith) keeps in
      elim (lt_or_ge target (key (row_ptr i))) [
        | inl lt ↦
            let neg : is_negative (three_way target (key (row_ptr i))) ≡ true = ground arith in
            record {
              at = i;
              s' = s1;
              finds = rw (said, ◌>>=◌, neg) refl;
              keeps = keeps1;
              from = omega arith;
              to = omega arith;
              below = λ j lo hi. absurd (omega arith);
              above = λ h. lt;
            }
        | inr ge ↦
            let rest = first_greater_lem k (i + 1) s1 (omega arith) keeps1 in
            let off : is_negative (three_way target (key (row_ptr i))) ≡ false = ground arith in
            record {
              at = rest.at;
              s' = rest.s';
              finds = rw (said, ◌>>=◌, off) rest.finds;
              keeps = rest.keeps;
              from = omega (arith, rest.from);
              to = omega (arith, rest.to);
              below = λ j lo hi. elim (ℕ_discrete j i) [
                | yes p ↦ rw p ge
                | no np ↦ rest.below j (omega arith) hi
              ];
              above = λ lt. rest.above (omega arith);
            }
      ]
