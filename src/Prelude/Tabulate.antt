-- ===== src/Prelude/Tabulate.antt =====
-- Lists of the values of a function at a range of numbers.
use Prim.Native.Nat.{ℕ, zero, suc, ◌+◌, ◌-◌, ◌<◌, ◌≤◌}
use mathlib.Core.Path.{◌≡◌, refl, ap, ◌∙◌}
use mathlib.Core.List.{List, [], ◌∷◌, ◌++◌}
use mathlib.Core.Option.{none, some}
use native.Mathlib.Omega.{arith}
use my_jql.Prelude.Lists.{length, get_elem?, take, drop}

module _ {ℓ} {A : Type ℓ} where
  -- The values of `f` at the `n` numbers from `i` on.
  abbrev pub tabulate : (ℕ → A) → (i n : ℕ) → List A
  tabulate f i zero = []
  tabulate f i (suc n) = f i ∷ tabulate f (i + 1) n

  pub tabulate_ext :
      (f g : ℕ → A) (i n : ℕ)
      → ((j : ℕ) → i ≤ j → j < i + n → f j ≡ g j)
      → tabulate f i n ≡ tabulate g i n
  tabulate_ext f g i zero h = refl
  tabulate_ext f g i (suc n) h =
      rw (h i (omega arith) (omega arith))
        (ap (λ t. g i ∷ t) (tabulate_ext f g (i + 1) n λ j lo hi. h j (omega arith) (omega arith)))

  pub tabulate-suc :
      (f : ℕ → A) (i n : ℕ) → tabulate f i (suc n) ≡ tabulate f i n ++ (f (i + n) ∷ [])
  tabulate-suc f i zero = ap (λ k. f k ∷ []) (omega arith)
  tabulate-suc f i (suc n) =
      rw (tabulate-suc f (i + 1) n)
        (ap (λ k. f i ∷ (tabulate f (i + 1) n ++ (f k ∷ []))) (omega arith))

  pub length-tabulate : (f : ℕ → A) (i n : ℕ) → length (tabulate f i n) ≡ n
  length-tabulate f i zero = refl
  length-tabulate f i (suc n) = ap suc (length-tabulate f (i + 1) n)

module _ {ℓ} {A : Type ℓ} where
  pub tabulate-ext :
      (f g : ℕ → A) (i k n : ℕ)
      → ((j : ℕ) → j < n → f (i + j) ≡ g (k + j))
      → tabulate f i n ≡ tabulate g k n
  tabulate-ext f g i k zero same = refl
  tabulate-ext f g i k (suc n) same =
      let head : f i ≡ g k = ap f (omega arith) ∙ same 0 (omega arith) ∙ ap g (omega arith) in
      let tail : tabulate f (i + 1) n ≡ tabulate g (k + 1) n =
        tabulate-ext f g (i + 1) (k + 1) n
          λ j lt. ap f (omega arith) ∙ same (suc j) (omega arith) ∙ ap g (omega arith) in
      λ t. head t ∷ tail t

  pub same_range : (f : ℕ → A) (i k m n : ℕ) → i ≡ k → m ≡ n → tabulate f i m ≡ tabulate f k n
  same_range f i k m n e e' t = tabulate f (e t) (e' t)

  pub tabulate-append :
      (f : ℕ → A) (i m n : ℕ) → tabulate f i (m + n) ≡ tabulate f i m ++ tabulate f (i + m) n
  tabulate-append f i zero n = same_range f i (i + 0) (0 + n) n (omega arith) (omega arith)
  tabulate-append f i (suc m) n =
      same_range f i i (suc m + n) (suc (m + n)) refl (omega arith)
      ∙ ap (λ t. f i ∷ t) (tabulate-append f (i + 1) m n)
      ∙ ap (λ t. f i ∷ tabulate f (i + 1) m ++ t)
          (same_range f (i + 1 + m) (i + suc m) n n (omega arith) refl)

  pub take-tabulate : (f : ℕ → A) (i m n : ℕ) → m ≤ n → take m (tabulate f i n) ≡ tabulate f i m
  take-tabulate f i zero n le = refl
  take-tabulate f i (suc m) zero le = absurd (omega arith)
  take-tabulate f i (suc m) (suc n) le =
      ap (λ t. f i ∷ t) (take-tabulate f (i + 1) m n (omega arith))

  pub drop-tabulate :
      (f : ℕ → A) (i m n : ℕ) → m ≤ n → drop m (tabulate f i n) ≡ tabulate f (i + m) (n - m)
  drop-tabulate f i zero n le = same_range f i (i + 0) n (n - 0) (omega arith) (omega arith)
  drop-tabulate f i (suc m) zero le = absurd (omega arith)
  drop-tabulate f i (suc m) (suc n) le =
      drop-tabulate f (i + 1) m n (omega arith)
      ∙ same_range f (i + 1 + m) (i + suc m) (n - m) (suc n - suc m) (omega arith) (omega arith)

pub get_elem?-tabulate_lt {ℓ} :
    {A : Type ℓ} (f : ℕ → A) (n i k : ℕ) → k < n → get_elem? (tabulate f i n) k ≡ some (f (i + k))
get_elem?-tabulate_lt f zero i k h = absurd (omega arith)
get_elem?-tabulate_lt f (suc n) i zero h = ap (λ t. some (f t)) (omega arith)
get_elem?-tabulate_lt f (suc n) i (suc k) h =
    get_elem?-tabulate_lt f n (i + 1) k (omega arith) ∙ ap (λ t. some (f t)) (omega arith)

pub get_elem?-tabulate_ge {ℓ} :
    {A : Type ℓ} (f : ℕ → A) (n i k : ℕ) → n ≤ k → get_elem? (tabulate f i n) k ≡ none
get_elem?-tabulate_ge f zero i k h = refl
get_elem?-tabulate_ge f (suc n) i zero h = absurd (omega arith)
get_elem?-tabulate_ge f (suc n) i (suc k) h = get_elem?-tabulate_ge f n (i + 1) k (omega arith)
