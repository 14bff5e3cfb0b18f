-- ===== src/Common/ByteStrings.antt =====
-- Go's `[]byte` and `string` as lists of numbers, with `bytes.Equal` and text literals.
use Prim.Native.Nat.{ℕ, ◌<◌}
use Prim.Native.Char.{code}
use Prim.Native.String.{String}
use mathlib.Core.Path.{◌≡◌, refl}
use mathlib.Core.Logic.{◌↔◌}
use mathlib.Core.Bool.{Bool, true, false, ◌&&◌}
use mathlib.Core.List.{List, [], ◌∷◌, ◌++◌}
use native.Mathlib.Omega.{arith}
use k_chain_vm_common_go.Common.Tests.{◌==◌, if◌then◌else◌}

abbrev pub Bytes : Type 0
Bytes = List ℕ

-- The code points of a literal, which are its bytes when the text is ASCII.
abbrev pub codes : String → Bytes
codes String.[] = []
codes (String.◌∷◌ c s) = code c ∷ codes s

abbrev pub cons_first : ℕ → List Bytes → List Bytes
cons_first c [] = (c ∷ []) ∷ []
cons_first c (t ∷ ts) = (c ∷ t) ∷ ts

-- strings.Split and bytes.Split at a separator of one byte.
unfoldable pub split_on : ℕ → Bytes → List Bytes
split_on separator [] = [] ∷ []
split_on separator (c ∷ s) =
    if c == separator then [] ∷ split_on separator s else cons_first c (split_on separator s)

-- bytes.Equal
unfoldable pub bytes_equal : Bytes → Bytes → Bool
bytes_equal [] [] = true
bytes_equal (x ∷ xs) (y ∷ ys) = (x == y) && bytes_equal xs ys
bytes_equal _ _ = false

pub bytes_equal_iff : (xs ys : Bytes) → (bytes_equal xs ys ≡ true) ↔ (xs ≡ ys)
unfolding bytes_equal
bytes_equal_iff [] [] = (λ _. refl, λ _. refl)
bytes_equal_iff [] (y ∷ ys) = (λ h. cc, λ h. cc)
bytes_equal_iff (x ∷ xs) [] = (λ h. cc, λ h. cc)
bytes_equal_iff (x ∷ xs) (y ∷ ys) =
    (λ h. ground (arith, bytes_equal_iff xs ys), λ h. ground (arith, bytes_equal_iff xs ys))

pub bytes_equal_refl : (xs : Bytes) → bytes_equal xs xs ≡ true
bytes_equal_refl xs = (bytes_equal_iff xs xs).1 refl

module _ {ℓ κ} {A : Type ℓ} (P : A → Type κ) where
  abbrev pub All : List A → Type κ
  All [] = Unit
  All (x ∷ xs) = P x × All xs

  pub All-append : (xs ys : List A) → All xs → All ys → All (xs ++ ys)
  All-append [] ys _ hy = hy
  All-append (x ∷ xs) ys (px, hx) hy = (px, All-append xs ys hx hy)

-- Every number of the list is a byte.
abbrev pub AreBytes : Bytes → Type 0
AreBytes = All (λ b. b < 256)
