-- ===== src/Exec.antt =====
-- Handlers as actions: Go code that may write to shared objects and may return an error. What was
-- written before the error stays written, so the state comes back beside it.
use k_chain_vm_common_go.Common.{
  inl, inr, ap, arith, ◌≡◌, ℕ, zero, suc, Bool, true, false, List, [], ◌∷◌,
}
use k_chain_vm_common_go.Errors.{Result-cases, Error, runtime_panic, Result, ok, err}

abbrev pub Exec : Type 0 → Type 0 → Type 0
Exec W A = W → Result A × W

module _ {W A : Type 0} where
  abbrev pub pure : A → Exec W A
  pure a w = (ok a, w)

  abbrev pub raise : Error → Exec W A
  raise e w = (err e, w)

  abbrev pub gets : (W → A) → Exec W A
  gets f w = (ok (f w), w)

  abbrev pub lift : Result A → Exec W A
  lift r w = (r, w)

  -- A read of the state that may fail.
  abbrev pub reads : (W → Result A) → Exec W A
  reads f w = (f w, w)

infixl 5 ◌>>=◌ ◌>>◌
abbrev pub ◌>>=◌ : {W A B : Type 0} → Exec W A → (A → Exec W B) → Exec W B
◌>>=◌ m f w = let (r, w') = m w in elim r [ ok a ↦ f a w' | err e ↦ (err e, w') ]

abbrev pub ◌>>◌ : {W B : Type 0} → Exec W (Unit {0}) → Exec W B → Exec W B
m >> k = m >>= λ _. k

abbrev pub fail_if : {W : Type 0} → Bool → Error → Exec W (Unit {0})
fail_if true e w = (err e, w)
fail_if false e w = (ok tt, w)

-- `xs[i]`; out of range Go panics.
abbrev pub element_at : {A : Type 0} → List A → ℕ → Result A
element_at [] i = err runtime_panic
element_at (x ∷ xs) zero = ok x
element_at (x ∷ xs) (suc i) = element_at xs i

abbrev pub index : {W A : Type 0} → List A → ℕ → Exec W A
index xs i w = (element_at xs i, w)

-- A read of a slice fails in one way.
pub element_at_failed :
    {A : Type 0} (xs : List A) (i : ℕ) (x : Error) → element_at xs i ≡ err x → x ≡ runtime_panic
element_at_failed [] i x h = cc
element_at_failed (y ∷ xs) zero x h = cc
element_at_failed (y ∷ xs) (suc i) x h = element_at_failed xs i x h

-- A sequence goes on where its first action succeeds, and stops where it fails.
pub bind-ok :
    {W A B : Type 0} (m : Exec W A) (f : A → Exec W B) (w : W) (a : A)
    → (m w).0 ≡ ok a
    → (m >>= f) w ≡ f a (m w).1
bind-ok m f w a h = ground arith

pub bind-err :
    {W A B : Type 0} (m : Exec W A) (f : A → Exec W B) (w : W) (x : Error)
    → (m w).0 ≡ err x
    → (m >>= f) w ≡ (err x, (m w).1)
bind-err m f w x h = ground arith

-- An action whose value is replaced.
pub then_pure-ok :
    {W A B : Type 0} (m : Exec W A) (r c : B) (w : W)
    → ((m >>= λ _. pure r) w).0 ≡ ok c
    → ((a : A) × ((m w).0 ≡ ok a)) × (((m >>= λ _. pure r) w).1 ≡ (m w).1)
then_pure-ok m r c w h = elim (Result-cases (m w).0) [
  | inl (a, done) ↦ ((a, done), ap (λ r. r.1) (bind-ok m (λ _. pure r) w a done))
  | inr (x, failed) ↦ absurd (cc (bind-err m (λ _. pure r) w x failed))
]

-- A sequence that succeeds: its first action did, and the rest went on from there.
pub bind-inv :
    {W A B : Type 0} (m : Exec W A) (f : A → Exec W B) (w : W) (b : B)
    → ((m >>= f) w).0 ≡ ok b
    → (a : A) × ((m w).0 ≡ ok a) × ((m >>= f) w ≡ f a (m w).1)
bind-inv m f w b h = elim (Result-cases (m w).0) [
  | inl (a, done) ↦ (a, done, bind-ok m f w a done)
  | inr (x, failed) ↦ absurd (cc (bind-err m f w x failed))
]
