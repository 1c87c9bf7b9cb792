-- ===== src/Sniff/Reading.antt =====
-- Checked reads of a byte slice, and the outcome of a sniffer: internal/sniff/tls.go.
use tamizdat.Prelude.{
  Bool, Option, some, ℕ, ◌≡◌, true, get_elem?, if◌then◌else◌, ◌<◌, ◌≤◌, false, none, leb, length,
  refl, ◌&&◌, arith, ◌-◌, take, ◌∷◌, le→leb, drop, suc, length-take, length-drop, [], zero,
}
use tamizdat.Prelude.Bytes.{Bytes}

-- What `(string, bool)` says, or a panic of the Go code.
pub data Outcome {ℓ} (A : Type ℓ) : Type ℓ where
  found : A → Outcome A
  missing : Outcome A
  fault : Outcome A

infixl 5 ◌>>=◌ ◌>>◌
abbrev pub ◌>>=◌ {ℓ κ} : {A : Type ℓ} {B : Type κ} → Outcome A → (A → Outcome B) → Outcome B
found a >>= f = f a
missing >>= f = missing
fault >>= f = fault

abbrev pub ◌>>◌ {ℓ} : {B : Type ℓ} → Outcome (Unit {0}) → Outcome B → Outcome B
m >> next = m >>= λ _. next

-- An early `return "", false`.
abbrev pub reject_if : Bool → Outcome (Unit {0})
reject_if true = missing
reject_if false = found tt

abbrev or_fault {ℓ} : {A : Type ℓ} → Option A → Outcome A
or_fault none = fault
or_fault (some a) = found a

-- `xs[i]`.
unfoldable pub byte_at : Bytes → ℕ → Outcome ℕ
byte_at xs i = or_fault (get_elem? xs i)

-- `xs[i:j]`.
unfoldable pub slice : Bytes → ℕ → ℕ → Outcome Bytes
slice xs i j = if leb i j && leb j (length xs) then found (take (j - i) (drop i xs)) else fault

-- No fault, and a value that is found satisfies `P`.
abbrev pub Safe {ℓ} : {A : Type ℓ} → (A → Type 0) → Outcome A → Type 0
Safe P (found a) = P a
Safe P missing = Unit {0}
Safe P fault = ⊥

pub Safe-bind {ℓ κ} :
    {A : Type ℓ} {B : Type κ} (P : A → Type 0) (Q : B → Type 0) (m : Outcome A) (f : A → Outcome B)
    → Safe P m
    → ((a : A) → P a → Safe Q (f a))
    → Safe Q (m >>= f)
Safe-bind P Q (found a) f h k = k a h
Safe-bind P Q missing f h k = h
Safe-bind P Q fault f h k = absurd h

pub byte_at-Safe : (xs : Bytes) (i : ℕ) → i < length xs → Safe (λ _. Unit {0}) (byte_at xs i)
unfolding byte_at
byte_at-Safe [] i h = absurd (omega arith)
byte_at-Safe (x ∷ xs) zero h = tt
byte_at-Safe (x ∷ xs) (suc i) h = byte_at-Safe xs i (omega arith)

pub slice-Safe :
    (xs : Bytes) (i j : ℕ) → i ≤ j → j ≤ length xs → Safe (λ ys. length ys ≡ j - i) (slice xs i j)
unfolding slice
slice-Safe xs i j h k =
    rw (le→leb _ _ h, le→leb _ _ k)
      (omega (arith, length-take (j - i) (drop i xs), length-drop i xs))

pub reject_if-Safe : (b : Bool) → Safe (λ _. b ≡ false) (reject_if b)
reject_if-Safe true = tt
reject_if-Safe false = refl
