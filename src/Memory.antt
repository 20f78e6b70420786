-- ===== src/Memory.antt =====
-- The bytes of a page, and the accesses that the C code makes through casts and `memcpy`.
-- An address is an offset from the start of the page; integers are little-endian.
use my_jql.Prelude.{
  ℕ, zero, suc, ◌+◌, ◌*◌, ◌/◌, ◌%◌, ◌^◌, ◌≤◌, ◌<◌, ◌≡◌, refl, ◌⊎◌, inl, inr, List, [], ◌∷◌, arith,
  ◌==◌, if◌then◌else◌, length, lt_or_ge,
}

abbrev pub Memory : Type 0
Memory = ℕ → ℕ

unfoldable pub write8 : Memory → ℕ → ℕ → Memory
write8 m a v x = if x == a then v else m x

-- `*(unsigned int *)(p + a)`
unfoldable pub read32 : Memory → ℕ → ℕ
read32 m a = m a + m (a + 1) * 2 ^ 8 + m (a + 2) * 2 ^ 16 + m (a + 3) * 2 ^ 24

-- `*(unsigned int *)(p + a) = v`
unfoldable pub write32 : Memory → ℕ → ℕ → Memory
unfolding write8
write32 m a v =
    write8
      (write8 (write8 (write8 m a (v % 2 ^ 8)) (a + 1) (v / 2 ^ 8 % 2 ^ 8)) (a + 2)
        (v / 2 ^ 16 % 2 ^ 8))
      (a + 3) (v / 2 ^ 24 % 2 ^ 8)

-- `memcpy(p + a, item, length item)`
unfoldable pub memcpy : Memory → ℕ → List ℕ → Memory
memcpy m a [] = m
memcpy m a (x ∷ xs) = memcpy (write8 m a x) (a + 1) xs

-- The `n` bytes from `a` on.
unfoldable pub bytes_at : Memory → ℕ → ℕ → List ℕ
bytes_at m a zero = []
bytes_at m a (suc n) = m a ∷ bytes_at m (a + 1) n

-- `for (i = n - 1; i >= 0; i--) target[i] = start[i];`
unfoldable pub slide : Memory → (start target n : ℕ) → Memory
slide m start target zero = m
slide m start target (suc i) = slide (write8 m (target + i) (m (start + i))) start target i

pub read32-write32_self : (m : Memory) (a v : ℕ) → v < 2 ^ 32 → read32 (write32 m a v) a ≡ v
unfolding read32 write32
read32-write32_self m a v h = ground arith

-- A word reads the same in two memories that agree on its four bytes.
pub read32_ext :
    (m m' : Memory) (a : ℕ) → ((x : ℕ) → a ≤ x → x < a + 4 → m x ≡ m' x) → read32 m a ≡ read32 m' a
unfolding read32
read32_ext m m' a h = omega (
  arith,
  h a (omega arith) (omega arith),
  h (a + 1) (omega arith) (omega arith),
  h (a + 2) (omega arith) (omega arith),
  h (a + 3) (omega arith) (omega arith),
)

pub write32_outside : (m : Memory) (a v x : ℕ) → (x < a) ⊎ (a + 4 ≤ x) → write32 m a v x ≡ m x
unfolding write32
write32_outside m a v x h = ground arith

pub memcpy_outside :
    (m : Memory) (a : ℕ) (xs : List ℕ) (x : ℕ)
    → (x < a) ⊎ (a + length xs ≤ x)
    → memcpy m a xs x ≡ m x
unfolding memcpy write8
memcpy_outside m a [] x h = refl
memcpy_outside m a (y ∷ xs) x h = ground (arith, memcpy_outside (write8 m a y) (a + 1) xs x)

pub bytes_at_ext :
    (m m' : Memory) (a a' n : ℕ)
    → ((k : ℕ) → k < n → m (a + k) ≡ m' (a' + k))
    → bytes_at m a n ≡ bytes_at m' a' n
unfolding bytes_at
bytes_at_ext m m' a a' zero h = refl
bytes_at_ext m m' a a' (suc n) h =
    ground (arith, h 0, bytes_at_ext m m' (a + 1) (a' + 1) n (λ k hk. ground (arith, h (suc k))))

pub bytes_at-memcpy_self :
    (m : Memory) (a : ℕ) (xs : List ℕ) → bytes_at (memcpy m a xs) a (length xs) ≡ xs
unfolding bytes_at memcpy write8
bytes_at-memcpy_self m a [] = refl
bytes_at-memcpy_self m a (x ∷ xs) = ground (
  arith,
  memcpy_outside (write8 m a x) (a + 1) xs a,
  bytes_at-memcpy_self (write8 m a x) (a + 1) xs,
)

pub slide_outside :
    (m : Memory) (start target n x : ℕ)
    → (x < target) ⊎ (target + n ≤ x)
    → slide m start target n x ≡ m x
unfolding slide write8
slide_outside m start target zero x h = refl
slide_outside m start target (suc i) x h =
    ground
      (arith, slide_outside (write8 m (target + i) (m (start + i))) start target i x (omega arith))

-- Copying upwards from the high end: no byte is overwritten before it is read.
pub slide_inside :
    (m : Memory) (start target n k : ℕ)
    → start ≤ target
    → k < n
    → slide m start target n (target + k) ≡ m (start + k)
unfolding slide write8
slide_inside m start target zero k h hk = absurd (omega arith)
slide_inside m start target (suc i) k h hk =
    let m' = write8 m (target + i) (m (start + i)) in
    elim (lt_or_ge k i) [
      | inl lt ↦ ground (arith, slide_inside m' start target i k h lt)
      | inr ge ↦ ground (arith, slide_outside m' start target i (target + k) (inr (omega arith)))
    ]
