-- ===== src/Common/Lists.antt =====
-- Lists measured by native numbers, under the library's names.
use Prim.Native.Nat.{ℕ, zero, suc, ◌+◌, ◌≤◌}
use mathlib.Core.Path.{◌≡◌, refl, sym, ap, ◌∙◌, subst}
use mathlib.Core.List.{List, [], ◌∷◌, ◌++◌, map}
use mathlib.Core.Bool.{Bool, true, false≢true}
use mathlib.Core.Logic.{◌⊎◌, ◌↔◌, inl, inr}
use native.Mathlib.Omega.{arith}
use create_chain_substrate_n.Common.Tests.{if◌then◌else◌, Bool-cases}

module _ {ℓ} {A : Type ℓ} where
  abbrev pub length : List A → ℕ
  length [] = 0
  length (x ∷ xs) = suc (length xs)

  abbrev pub replicate : ℕ → A → List A
  replicate zero a = []
  replicate (suc n) a = a ∷ replicate n a

  pub length-append : (xs ys : List A) → length (xs ++ ys) ≡ length xs + length ys
  length-append [] ys = omega arith
  length-append (x ∷ xs) ys = omega (arith, length-append xs ys)

module _ {ℓ κ} {A : Type ℓ} {B : Type κ} where
  pub length-map : (f : A → B) (xs : List A) → length (map f xs) ≡ length xs
  length-map f [] = refl
  length-map f (x ∷ xs) = omega (arith, length-map f xs)

abbrev pub All {ℓ κ} : {A : Type ℓ} → (A → Type κ) → List A → Type κ
All P [] = Unit
All P (x ∷ xs) = P x × All P xs

-- Membership, and lists with no repeated element, by recursion: tactics take them apart.
abbrev pub IsIn : {A : Type 0} → A → List A → Type 0
IsIn a [] = ⊥
IsIn a (x ∷ xs) = (a ≡ x) ⊎ IsIn a xs

abbrev pub AllDistinct : {A : Type 0} → List A → Type 0
AllDistinct [] = Unit
AllDistinct (x ∷ xs) = (¬ IsIn x xs) × AllDistinct xs

-- `iter.filter(p)`
abbrev pub filter {ℓ} : {A : Type ℓ} → (A → Bool) → List A → List A
filter p [] = []
filter p (x ∷ xs) = let rest = filter p xs in if p x then x ∷ rest else rest

module _ {A B : Type 0} where
  pub IsIn-map : (f : A → B) (a : A) (xs : List A) → IsIn a xs → IsIn (f a) (map f xs)
  IsIn-map f a [] m = elim m [ ]
  IsIn-map f a (x ∷ xs) (inl e) = inl (ap f e)
  IsIn-map f a (x ∷ xs) (inr m) = inr (IsIn-map f a xs m)

  pub IsIn-map_iff :
      (f : A → B) (b : B) (xs : List A) → IsIn b (map f xs) ↔ ((a : A) × IsIn a xs × (b ≡ f a))
  IsIn-map_iff f b [] = (λ h. elim h [ ], λ (_, h, _). elim h [ ])
  IsIn-map_iff f b (x ∷ xs) = (
    λ h. elim h [
      | inl e ↦ (x, inl refl, e)
      | inr m ↦ let (a, m', e) = (IsIn-map_iff f b xs).0 m in (a, inr m', e)
    ],
    λ (a, m, e). elim m [
      | inl e' ↦ inl (e ∙ ap f e')
      | inr m' ↦ inr ((IsIn-map_iff f b xs).1 (a, m', e))
    ],
  )

  pub AllDistinct-map :
      (f : A → B) (xs : List A)
      → ((a b : A) → f a ≡ f b → a ≡ b)
      → AllDistinct xs
      → AllDistinct (map f xs)
  AllDistinct-map f [] inj u = tt
  AllDistinct-map f (x ∷ xs) inj (fresh, u) = (
    λ m.
        let (a, m', e) = (IsIn-map_iff f (f x) xs).0 m in
        fresh (subst (λ y. IsIn y xs) (sym (inj x a e)) m'),
    AllDistinct-map f xs inj u,
  )

module _ {A : Type 0} (p : A → Bool) where
  pub IsIn-filter : (a : A) (xs : List A) → IsIn a (filter p xs) ↔ (IsIn a xs × (p a ≡ true))
  IsIn-filter a [] = (λ h. elim h [ ], λ h. h.0)
  IsIn-filter a (x ∷ xs) = elim (Bool-cases (p x)) [
    | inl e ↦ rw e (
      λ h. elim h [
        | inl same ↦ (inl same, ap p same ∙ e)
        | inr m ↦ let (m', t) = (IsIn-filter a xs).0 m in (inr m', t)
      ],
      λ (m, t). elim m [ inl same ↦ inl same | inr m' ↦ inr ((IsIn-filter a xs).1 (m', t)) ],
    )
    | inr e ↦ rw e (
      λ m. let (m', t) = (IsIn-filter a xs).0 m in (inr m', t),
      λ (m, t). elim m [
        | inl same ↦ absurd (false≢true (sym e ∙ ap p (sym same) ∙ t))
        | inr m' ↦ (IsIn-filter a xs).1 (m', t)
      ],
    )
  ]

  pub AllDistinct-filter : (xs : List A) → AllDistinct xs → AllDistinct (filter p xs)
  AllDistinct-filter [] u = tt
  AllDistinct-filter (x ∷ xs) (fresh, u) = elim (Bool-cases (p x)) [
    | inl e ↦ rw e (λ m. fresh ((IsIn-filter x xs).0 m).0, AllDistinct-filter xs u)
    | inr e ↦ rw e (AllDistinct-filter xs u)
  ]

  pub length-filter : (xs : List A) → length (filter p xs) ≤ length xs
  length-filter [] = omega arith
  length-filter (x ∷ xs) = elim (Bool-cases (p x)) [
    | inl e ↦ rw e (omega (arith, length-filter xs))
    | inr e ↦ rw e (omega (arith, length-filter xs))
  ]

module _ {A : Type 0} where
  pub IsIn-append_left : (a : A) (xs ys : List A) → IsIn a xs → IsIn a (xs ++ ys)
  IsIn-append_left a [] ys m = elim m [ ]
  IsIn-append_left a (x ∷ xs) ys (inl e) = inl e
  IsIn-append_left a (x ∷ xs) ys (inr m) = inr (IsIn-append_left a xs ys m)

  pub AllDistinct-append_left : (xs ys : List A) → AllDistinct (xs ++ ys) → AllDistinct xs
  AllDistinct-append_left [] ys u = tt
  AllDistinct-append_left (x ∷ xs) ys (fresh, u) =
      (λ m. fresh (IsIn-append_left x xs ys m), AllDistinct-append_left xs ys u)
