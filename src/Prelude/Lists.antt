-- ===== src/Prelude/Lists.antt =====
-- Lists measured by native numbers, tests on lists, and a predicate that holds throughout a list.
use Prim.Native.Nat.{ℕ, suc, ◌+◌}
use Prim.Native.String.{String}
use text.Mathlib.Text.{◌==◌ as str_eq}
use text.Mathlib.TextEquality.{eq_iff}
use mathlib.Core.Path.{◌≡◌, sym, refl}
use mathlib.Core.Logic.{◌⊎◌, inl, inr, ◌↔◌}
use mathlib.Core.List.{List, [], ◌∷◌, ◌++◌, Memᴰ}
use mathlib.Core.Bool.{Bool, true, false, ◌||◌, ◌&&◌}
use native.Mathlib.Omega.{arith}
use i_breeze.Prelude.Tests.{Bool-cases}

module _ {ℓ} {A : Type ℓ} where
  abbrev pub length : List A → ℕ
  length [] = 0
  length (x ∷ xs) = suc (length xs)

  -- `all(p(x) for x in xs)`
  abbrev pub all : (A → Bool) → List A → Bool
  all p [] = true
  all p (x ∷ xs) = p x && all p xs

  -- `any(p(x) for x in xs)`
  abbrev pub any : (A → Bool) → List A → Bool
  any p [] = false
  any p (x ∷ xs) = p x || any p xs

  abbrev pub keep_if : (A → Bool) → List A → List A
  keep_if p [] = []
  keep_if p (x ∷ xs) = let rest = keep_if p xs in elim (p x) [ true ↦ x ∷ rest | false ↦ rest ]

  pub length-append : (xs ys : List A) → length (xs ++ ys) ≡ length xs + length ys
  length-append [] ys = omega arith
  length-append (x ∷ xs) ys = omega (arith, length-append xs ys)

-- `s in xs` for texts
abbrev pub contains : String → List String → Bool
contains s [] = false
contains s (x ∷ xs) = str_eq x s || contains s xs

pub contains→Mem : (s : String) (xs : List String) → contains s xs ≡ true → Memᴰ s xs
contains→Mem s (x ∷ xs) h = elim (Bool-cases (str_eq x s)) [
  | inl e ↦ Memᴰ.head (sym ((eq_iff x s).0 e))
  | inr e ↦ Memᴰ.tail (contains→Mem s xs (ground arith))
]
contains→Mem s [] h = ground arith

pub contains-cons_self : (s : String) (xs : List String) → contains s (s ∷ xs) ≡ true
contains-cons_self s xs = rw ((eq_iff s s).1 refl)

pub contains-cons :
    (s x : String) (xs : List String) → contains s xs ≡ true → contains s (x ∷ xs) ≡ true
contains-cons s x xs h = ground arith

-- A text that is in a list with a head is the head or is in the rest.
pub contains-cases :
    (s x : String) (xs : List String)
    → contains s (x ∷ xs) ≡ true
    → (x ≡ s) ⊎ (contains s xs ≡ true)
contains-cases s x xs h = elim (Bool-cases (str_eq x s)) [
  | inl e ↦ inl ((eq_iff x s).0 e)
  | inr e ↦ inr (rw e at h)
]

pub Mem→contains : (s : String) (xs : List String) → Memᴰ s xs → contains s xs ≡ true
Mem→contains s [] h = elim h [ ]
Mem→contains s (x ∷ xs) (Memᴰ.head e) = rw (← e) (contains-cons_self s xs)
Mem→contains s (x ∷ xs) (Memᴰ.tail h) = contains-cons s x xs (Mem→contains s xs h)

pub contains_iff : (s : String) (xs : List String) → (contains s xs ≡ true) ↔ Memᴰ s xs
contains_iff s xs = (contains→Mem s xs, Mem→contains s xs)

module _ {ℓ} {A : Type ℓ} where
  -- `any` is False exactly if the test fails throughout.
  pub any-false_iff :
      (p : A → Bool) (xs : List A) → (any p xs ≡ false) ↔ ((x : A) → Memᴰ x xs → p x ≡ false)
  any-false_iff p xs = (there xs, back xs)
    where
      there : (ys : List A) → any p ys ≡ false → (x : A) → Memᴰ x ys → p x ≡ false
      there [] h x i = elim i [ ]
      there (y ∷ ys) h x (Memᴰ.head e) = rw e (ground arith)
      there (y ∷ ys) h x (Memᴰ.tail i) = there ys (ground arith) x i

      back : (ys : List A) → ((x : A) → Memᴰ x ys → p x ≡ false) → any p ys ≡ false
      back [] h = refl
      back (y ∷ ys) h = rw (h y (Memᴰ.head refl)) (back ys (λ x i. h x (Memᴰ.tail i)))

  pub append-nil_iff : (xs ys : List A) → (xs ++ ys ≡ []) ↔ ((xs ≡ []) × (ys ≡ []))
  append-nil_iff [] ys = (λ h. (refl, h), λ h. h.1)
  append-nil_iff (x ∷ xs) ys = (λ h. cc, λ h. cc h.0)

pub any-append {ℓ} :
    {A : Type ℓ} (p : A → Bool) (xs ys : List A) → any p (xs ++ ys) ≡ (any p xs || any p ys)
any-append p [] ys = refl
any-append p (x ∷ xs) ys = ground (arith, any-append p xs ys)

module _ {ℓ} {A : Type ℓ} (p : A → Bool) where
  pub keep_if→Mem : (x : A) (xs : List A) → Memᴰ x (keep_if p xs) → Memᴰ x xs × (p x ≡ true)
  keep_if→Mem x [] i = elim i [ ]
  keep_if→Mem x (y ∷ ys) i = elim (Bool-cases (p y)) [
    | inl e ↦ first (keep_if→Mem x ys) e (rw (e, keep_if) at i)
    | inr e ↦ let r = keep_if→Mem x ys (rw (e, keep_if) at i) in (Memᴰ.tail r.0, r.1)
  ]
    where
      first :
          (Memᴰ x (keep_if p ys) → Memᴰ x ys × (p x ≡ true))
          → p y ≡ true
          → Memᴰ x (y ∷ keep_if p ys)
          → Memᴰ x (y ∷ ys) × (p x ≡ true)
      first later e (Memᴰ.head q) = (Memᴰ.head q, rw q e)
      first later e (Memᴰ.tail j) = let r = later j in (Memᴰ.tail r.0, r.1)

  pub Mem→keep_if : (x : A) (xs : List A) → Memᴰ x xs → p x ≡ true → Memᴰ x (keep_if p xs)
  Mem→keep_if x [] i h = elim i [ ]
  Mem→keep_if x (y ∷ ys) (Memᴰ.head q) h = rw (← q) (rw (h, keep_if) (Memᴰ.head refl))
  Mem→keep_if x (y ∷ ys) (Memᴰ.tail i) h = elim (Bool-cases (p y)) [
    | inl e ↦ rw (e, keep_if) (Memᴰ.tail (Mem→keep_if x ys i h))
    | inr e ↦ rw (e, keep_if) (Mem→keep_if x ys i h)
  ]

module _ {ℓ} {A : Type ℓ} (p : A → Bool) where
  pub keep_if-kept : (x : A) (xs : List A) → p x ≡ true → keep_if p (x ∷ xs) ≡ x ∷ keep_if p xs
  keep_if-kept x xs e = rw (e, keep_if) refl

  pub keep_if-left : (x : A) (xs : List A) → p x ≡ false → keep_if p (x ∷ xs) ≡ keep_if p xs
  keep_if-left x xs e = rw (e, keep_if) refl
