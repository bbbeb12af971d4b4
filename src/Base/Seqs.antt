-- ===== src/Base/Seqs.antt =====
-- Chains of fallible steps, and predicates over lists.
use java_spread_assignment.Base.{
  ℕ, zero, suc, ◌≡◌, refl, Bool, true, false, List, [], ◌∷◌, ◌++◌, Option, none, some,
  if◌then◌else◌,
}

-- `none` is the end of the process: `Alarmp` at SPLOG_FATAL does not return.
infixl 5 ◌>>=◌
abbrev pub ◌>>=◌ {ℓ κ} : {A : Type ℓ} {B : Type κ} → Option A → (A → Option B) → Option B
some a >>= f = f a
none >>= f = none

-- Inversion of a successful bind, for proofs where the parts stay shut.
pub >>=-eq-some {ℓ κ} :
    {A : Type ℓ} {B : Type κ} (m : Option A) (f : A → Option B) {b : B}
    → (m >>= f) ≡ some b
    → (a : A) × (m ≡ some a) × (f a ≡ some b)
>>=-eq-some (some a) f h = (a, refl, h)
>>=-eq-some none f h = cc

pub some-eq {ℓ} : {A : Type ℓ} {a b : A} → some a ≡ some b → a ≡ b
some-eq h = cc

-- What holds after either branch of a conditional.
pub if_either {ℓ κ} :
    {A : Type ℓ} {P : Type κ} (b : Bool) (x y o : A)
    → (x ≡ o → P)
    → (y ≡ o → P)
    → (if b then x else y) ≡ o
    → P
if_either true x y o p q h = p h
if_either false x y o p q h = q h

-- The same, with what the branch knows of the condition.
pub if_cases {ℓ κ} :
    {A : Type ℓ} {P : Type κ} (b : Bool) (x y o : A)
    → (b ≡ true → x ≡ o → P)
    → (b ≡ false → y ≡ o → P)
    → (if b then x else y) ≡ o
    → P
if_cases true x y o p q h = p refl h
if_cases false x y o p q h = q refl h

abbrev pub All {ℓ κ} : {A : Type ℓ} → (A → Type κ) → List A → Type κ
All P [] = Unit
All P (x ∷ xs) = P x × All P xs

pub All-append {ℓ κ} :
    {A : Type ℓ} (P : A → Type κ) (xs ys : List A) → All P xs → All P ys → All P (xs ++ ys)
All-append P [] ys hx hy = hy
All-append P (x ∷ xs) ys hx hy = (hx.0, All-append P xs ys hx.1 hy)

-- `first, first + 1, ...`, as many as the second argument says.
abbrev pub range_from : ℕ → ℕ → List ℕ
range_from first zero = []
range_from first (suc n) = first ∷ range_from (suc first) n

abbrev pub filter_by {ℓ} : {A : Type ℓ} → (A → Bool) → List A → List A
filter_by p [] = []
filter_by p (x ∷ xs) = if p x then x ∷ filter_by p xs else filter_by p xs

-- The last element, or the second argument of an empty list.
abbrev pub last_or {ℓ} : {A : Type ℓ} → List A → A → A
last_or [] d = d
last_or (x ∷ xs) d = last_or xs x

pub last_or-append {ℓ} :
    {A : Type ℓ} (xs : List A) (y : A) (ys : List A) (d : A)
    → last_or (xs ++ (y ∷ ys)) d ≡ last_or ys y
last_or-append [] y ys d = refl
last_or-append (x ∷ xs) y ys d = last_or-append xs y ys x
