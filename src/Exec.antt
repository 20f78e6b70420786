-- ===== src/Exec.antt =====
-- State with undefined behaviour: what a C function does to the memory that it can reach.
-- `none` stands for a step that C does not define, such as a use of a page that is in no frame.
use mathlib.Core.Path.{subst}
use my_jql.Prelude.{Option, none, some, ◌≡◌, ap, refl, arith, Bool, true, false, if◌then◌else◌}

abbrev pub Exec : Type 0 → Type 0 → Type 0
Exec S A = S → Option (A × S)

module _ {S : Type 0} where
  abbrev pub pure : {A : Type 0} → A → Exec S A
  pure a s = some (a, s)

  abbrev pub undefined : {A : Type 0} → Exec S A
  undefined s = none

  infixl 5 ◌>>=◌ ◌>>◌
  abbrev pub ◌>>=◌ : {A B : Type 0} → Exec S A → (A → Exec S B) → Exec S B
  ◌>>=◌ m f s = elim (m s) [ none ↦ none | some (a, s') ↦ f a s' ]

  abbrev pub ◌>>◌ : {B : Type 0} → Exec S (Unit {0}) → Exec S B → Exec S B
  m >> k = m >>= λ _. k

  -- A step that succeeds, and what follows it.
  pub bind-some :
      {A B : Type 0} (m : Exec S A) (f : A → Exec S B) (s s' : S) (a : A)
      → m s ≡ some (a, s')
      → (m >>= f) s ≡ f a s'
  bind-some m f s s' a e = ap (λ o. elim o [ none ↦ none | some (a, s') ↦ f a s' ]) e

  -- What a step did if a result that is made of its own is known.
  pub bind-pure :
      {A B : Type 0} (m : Exec S A) (f : A → B) (s s' : S) (b : B)
      → (m >>= λ a. pure (f a)) s ≡ some (b, s')
      → (a : A) × (m s ≡ some (a, s')) × (f a ≡ b)
  bind-pure {A} {B} m f s s' b e = result (m s) e
    where
      result :
          (o : Option (A × S))
          → elim o as (λ _. Option (B × S)) [ none ↦ none | some (a, s'') ↦ some (f a, s'') ]
            ≡ some (b, s')
          → (a : A) × (o ≡ some (a, s')) × (f a ≡ b)
      result none e = absurd (ground (arith, e))
      result (some (a, s'')) e = (a, ground (arith, e), ground (arith, e))

  pub same_result :
      {A : Type 0} (a b : A) (s s' : S)
      → ◌≡◌ {A = Option (A × S)} (some (a, s)) (some (b, s'))
      → (a ≡ b) × (s ≡ s')
  same_result a b s s' e = (ground (arith, e), ground (arith, e))

-- Every run of the step that succeeds keeps `Inv`.
abbrev pub Maintains : {S A : Type 0} → (S → Type 0) → Exec S A → Type 0
Maintains {S} {A} Inv m = (s : S) (a : A) (s' : S) → m s ≡ some (a, s') → Inv s → Inv s'

module _ {S : Type 0} (Inv : S → Type 0) where
  pub Maintains-pure : {A : Type 0} (a : A) → Maintains Inv (pure a)
  Maintains-pure a s b s' e inv = subst Inv (same_result a b s s' e).1 inv

  pub Maintains-undefined : {A : Type 0} → Maintains Inv (undefined {A = A})
  Maintains-undefined s b s' e inv = absurd (ground (arith, e))

  pub Maintains-bind :
      {A B : Type 0} (m : Exec S A) (f : A → Exec S B)
      → Maintains Inv m
      → ((a : A) → Maintains Inv (f a))
      → Maintains Inv (m >>= f)
  Maintains-bind {A} {B} m f first next s b s' e inv = result (m s) refl e
    where
      result :
          (o : Option (A × S))
          → m s ≡ o
          → elim o as (λ _. Option (B × S)) [ none ↦ none | some (a, s1) ↦ f a s1 ] ≡ some (b, s')
          → Inv s'
      result none e e' = absurd (ground (arith, e'))
      result (some (a, s1)) e e' = next a s1 b s' e' (first s a s1 e inv)

  pub Maintains-if :
      {A : Type 0} (b : Bool) (m m' : Exec S A)
      → Maintains Inv m
      → Maintains Inv m'
      → Maintains Inv (if b then m else m')
  Maintains-if true m m' here there = here
  Maintains-if false m m' here there = there

pub bind_assoc :
    {S A B C : Type 0} (m : Exec S A) (f : A → Exec S B) (g : B → Exec S C) (s : S)
    → ((m >>= f) >>= g) s ≡ (m >>= λ a. f a >>= g) s
bind_assoc {S} {A} {B} {C} m f g s = result (m s)
  where
    result :
        (o : Option (A × S))
        → elim (elim o as (λ _. Option (B × S)) [ none ↦ none | some (a, s1) ↦ f a s1 ])
            as (λ _. Option (C × S)) [ none ↦ none | some (b, s2) ↦ g b s2 ]
          ≡ elim o as (λ _. Option (C × S)) [ none ↦ none | some (a, s1) ↦ (f a >>= g) s1 ]
    result none = refl
    result (some (a, s1)) = refl
