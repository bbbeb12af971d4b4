-- ===== src/Session/Laws/Distinct.antt =====
-- Lists of numbers that differ under a function.
use java_spread_assignment.Base.{
  ℕ, zero, suc, ◌≤◌, ◌<◌, ◌≡◌, ◌≢◌, sym, ap, ◌∙◌, List, [], ◌∷◌, ◌++◌, arith, ◌==◌, if◌then◌else◌,
  length, true, Bool-cases, inl, inr,
}
use java_spread_assignment.Base.Seqs.{All, All-append, last_or}
use java_spread_assignment.Session.Laws.Chains.{DistinctBy}

pub All-split {ℓ κ} :
    {A : Type ℓ} (P : A → Type κ) (xs ys : List A) → All P (xs ++ ys) → All P xs × All P ys
All-split P [] ys a = (tt, a)
All-split P (x ∷ xs) ys a = let r = All-split P xs ys a.1 in ((a.0, r.0), r.1)

pub All-both {ℓ κ μ ν} :
    {A : Type ℓ} (P : A → Type κ) (R : A → Type μ) (Q : A → Type ν)
    → ((x : A) → P x → R x → Q x)
    → (xs : List A) → All P xs
    → All R xs
    → All Q xs
All-both P R Q f [] a b = tt
All-both P R Q f (x ∷ xs) a b = (f x a.0 b.0, All-both P R Q f xs a.1 b.1)

pub All-map {ℓ κ μ} :
    {A : Type ℓ} (P : A → Type κ) (Q : A → Type μ)
    → ((x : A) → P x → Q x)
    → (xs : List A) → All P xs
    → All Q xs
All-map P Q f [] a = tt
All-map P Q f (x ∷ xs) a = (f x a.0, All-map P Q f xs a.1)

-- What a middle element says of the others.
pub DistinctBy-middle :
    (f : ℕ → ℕ) (xs : List ℕ) (i : ℕ) (ys : List ℕ)
    → DistinctBy f (xs ++ (i ∷ ys))
    → All (λ x. f x ≢ f i) xs × All (λ y. f y ≢ f i) ys × DistinctBy f (xs ++ ys)
DistinctBy-middle f [] i ys d = (tt, d.0, d.1)
DistinctBy-middle f (x ∷ xs) i ys d =
    let r = DistinctBy-middle f xs i ys d.1 in
    let s = All-split (λ y. f y ≢ f x) xs (i ∷ ys) d.0 in
    ((λ e. s.1.0 (sym e), r.0), r.1, (All-append (λ y. f y ≢ f x) xs ys s.0 s.1.1, r.2))

pub DistinctBy-front : (f : ℕ → ℕ) (xs ys : List ℕ) → DistinctBy f (xs ++ ys) → DistinctBy f xs
DistinctBy-front f [] ys d = tt
DistinctBy-front f (x ∷ xs) ys d =
    ((All-split (λ y. f y ≢ f x) xs ys d.0).0, DistinctBy-front f xs ys d.1)

pub DistinctBy-back : (xs ys : List ℕ) → DistinctBy (λ y. y) (xs ++ ys) → DistinctBy (λ y. y) ys
DistinctBy-back [] ys d = d
DistinctBy-back (x ∷ xs) ys d = DistinctBy-back xs ys d.1

pub DistinctBy-ext :
    (f g : ℕ → ℕ) → ((x : ℕ) → g x ≡ f x) → (xs : List ℕ) → DistinctBy f xs → DistinctBy g xs
DistinctBy-ext f g e [] d = tt
DistinctBy-ext f g e (x ∷ xs) d = (
  All-map (λ y. f y ≢ f x) (λ y. g y ≢ g x) (λ y h k. h (sym (e y) ∙ k ∙ e x)) xs d.0,
  DistinctBy-ext f g e xs d.1,
)

-- Numbers that differ under some function differ.
pub DistinctBy-id : (f : ℕ → ℕ) (xs : List ℕ) → DistinctBy f xs → DistinctBy (λ x. x) xs
DistinctBy-id f [] d = tt
DistinctBy-id f (x ∷ xs) d =
    (All-map (λ y. f y ≢ f x) (λ y. y ≢ x) (λ y h e. h (ap f e)) xs d.0, DistinctBy-id f xs d.1)

-- The last of a front part is none of the rest.
pub DistinctBy-last :
    (x : ℕ) (xs zs : List ℕ) → DistinctBy (λ y. y) (x ∷ (xs ++ zs)) → All (λ z. z ≢ last_or xs x) zs
DistinctBy-last x [] zs d = d.0
DistinctBy-last x (y ∷ ys) zs d = DistinctBy-last y ys zs d.1

-- The list without the first `n`.
abbrev drop_first : ℕ → List ℕ → List ℕ
drop_first n [] = []
drop_first n (x ∷ xs) = if x == n then xs else x ∷ drop_first n xs

All-drop_first : (P : ℕ → Type 0) (n : ℕ) (xs : List ℕ) → All P xs → All P (drop_first n xs)
All-drop_first P n [] a = tt
All-drop_first P n (x ∷ xs) a = elim (Bool-cases (x == n)) [
  | inl e ↦ rw e a.1
  | inr e ↦ rw e (a.0, All-drop_first P n xs a.1)
]

drop_first-DistinctBy :
    (n : ℕ) (xs : List ℕ) → DistinctBy (λ x. x) xs → DistinctBy (λ x. x) (drop_first n xs)
drop_first-DistinctBy n [] d = tt
drop_first-DistinctBy n (x ∷ xs) d = elim (Bool-cases (x == n)) [
  | inl e ↦ rw e d.1
  | inr e ↦ rw e (All-drop_first (λ y. y ≢ x) n xs d.0, drop_first-DistinctBy n xs d.1)
]

length-drop_first : (n : ℕ) (xs : List ℕ) → length xs ≤ suc (length (drop_first n xs))
length-drop_first n [] = omega arith
length-drop_first n (x ∷ xs) = elim (Bool-cases (x == n)) [
  | inl e ↦ rw e (omega arith)
  | inr e ↦ rw e (omega (arith, length-drop_first n xs))
]

All-below :
    (n x : ℕ) (xs : List ℕ)
    → (x == n) ≡ true
    → All (λ y. y ≢ x) xs
    → All (λ y. y < suc n) xs
    → All (λ y. y < n) xs
All-below n x [] e d a = tt
All-below n x (y ∷ ys) e d a = (ground (arith, d.0, a.0), All-below n x ys e d.1 a.1)

-- Without `n`, different numbers up to `n` are below `n`.
drop_first-bound :
    (n : ℕ) (xs : List ℕ)
    → DistinctBy (λ x. x) xs
    → All (λ x. x < suc n) xs
    → All (λ x. x < n) (drop_first n xs)
drop_first-bound n [] d a = tt
drop_first-bound n (x ∷ xs) d a = elim (Bool-cases (x == n)) [
  | inl e ↦ rw e (All-below n x xs e d.0 a.1)
  | inr e ↦ rw e (ground (arith, a.0), drop_first-bound n xs d.1 a.1)
]

-- Different numbers below `n` are at most `n` many.
pub DistinctBy-count :
    (n : ℕ) (xs : List ℕ) → DistinctBy (λ x. x) xs → All (λ x. x < n) xs → length xs ≤ n
DistinctBy-count zero [] d a = omega arith
DistinctBy-count zero (x ∷ xs) d a = absurd (omega (arith, a.0))
DistinctBy-count (suc n) xs d a = omega (
  arith,
  length-drop_first n xs,
  DistinctBy-count n (drop_first n xs) (drop_first-DistinctBy n xs d) (drop_first-bound n xs d a),
)
