-- ===== src/Export/Slots.antt =====
-- Lists that are filled in any order: what `set` keeps, and lists that are known by their elements.
use fluxa.Base.{
  ℕ, zero, suc, ◌<◌, some, List, [], ◌∷◌, map, ◌≡◌, ◌≢◌, refl, ap, ◌⊎◌, inl, inr, arith, length,
  get_elem?,
}
use fluxa.Export.Defs.{LabelledEvent, blank, set}

-- A list is known by its elements.
pub list_ext {ℓ} :
    {A : Type ℓ} (xs ys : List A)
    → length xs ≡ length ys
    → ((i : ℕ) → i < length xs → get_elem? xs i ≡ get_elem? ys i)
    → xs ≡ ys
list_ext [] [] n h = refl
list_ext [] (y ∷ ys) n h = ground (arith, n)
list_ext (x ∷ xs) [] n h = ground (arith, n)
list_ext (x ∷ xs) (y ∷ ys) n h =
    let rest = list_ext xs ys (ground (arith, n)) (λ i k. h (suc i) (omega (arith, k))) in
    grind (arith, h 0 (omega arith), rest)

pub length-set {ℓ} : {A : Type ℓ} (xs : List A) (i : ℕ) (a : A) → length (set xs i a) ≡ length xs
length-set [] i a = refl
length-set (x ∷ xs) zero a = refl
length-set (x ∷ xs) (suc i) a = ap suc (length-set xs i a)

pub get_elem?-set {ℓ} :
    {A : Type ℓ} (xs : List A) (i j : ℕ) (a : A)
    → j < length xs
    → ((j ≡ i) × (get_elem? (set xs i a) j ≡ some a))
      ⊎ ((j ≢ i) × (get_elem? (set xs i a) j ≡ get_elem? xs j))
get_elem?-set [] i j a h = ground (arith, h)
get_elem?-set (x ∷ xs) zero zero a h = inl (refl, refl)
get_elem?-set (x ∷ xs) zero (suc j) a h = inr (omega arith, refl)
get_elem?-set (x ∷ xs) (suc i) zero a h = inr (omega arith, refl)
get_elem?-set (x ∷ xs) (suc i) (suc j) a h = elim (get_elem?-set xs i j a (omega (arith, h))) [
  | inl (e, g) ↦ inl (ap suc e, g)
  | inr (n, g) ↦ inr (omega (arith, n), g)
]

pub get_elem?-map {ℓ κ} :
    {A : Type ℓ} {B : Type κ} (f : A → B) (xs : List A) (i : ℕ) (a : A)
    → get_elem? xs i ≡ some a
    → get_elem? (map f xs) i ≡ some (f a)
get_elem?-map f [] i a h = ground (arith, h)
get_elem?-map f (x ∷ xs) zero a h = ground (arith, h)
get_elem?-map f (x ∷ xs) (suc i) a h = get_elem?-map f xs i a h

pub length-map {ℓ κ} :
    {A : Type ℓ} {B : Type κ} (f : A → B) (xs : List A) → length (map f xs) ≡ length xs
length-map f [] = refl
length-map f (x ∷ xs) = ap suc (length-map f xs)

pub length-blank : (es : List LabelledEvent) → length (blank es) ≡ length es
length-blank [] = refl
length-blank (e ∷ es) = ap suc (length-blank es)

pub get_elem?-in {ℓ} :
    {A : Type ℓ} (xs : List A) (i : ℕ) → i < length xs → (a : A) × (get_elem? xs i ≡ some a)
get_elem?-in [] i h = ground (arith, h)
get_elem?-in (x ∷ xs) zero h = (x, refl)
get_elem?-in (x ∷ xs) (suc i) h = get_elem?-in xs i (omega (arith, h))
