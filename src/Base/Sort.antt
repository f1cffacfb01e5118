-- ===== src/Base/Sort.antt =====
-- Insertion sort over a total order. A sorted permutation is unique, so this computes what Go's
-- `sort` computes.
use mathlib.Core.Path.{◌≡◌, refl, sym, subst, ap₂, ◌∙◌}
use mathlib.Core.Logic.{inl, inr, ◌↔◌, ∥∥₁_elim}
use mathlib.Core.Bool.{Bool, true, false}
use mathlib.Core.List.{List, [], ◌∷◌, Perm, Permᴰ}
use mathlib.Core.List
use mathlib.Core.List.Perm
use native.Mathlib.Omega.{arith}
use grab_redis.Base.Tests.{if◌then◌else◌, Bool-cases}

pub record Order {ℓ} (A : Type ℓ) : Type ℓ where
  pub le : A → A → Bool
  pub total : (a b : A) → le a b ≡ false → le b a ≡ true
  pub trans : (a b c : A) → le a b ≡ true → le b c ≡ true → le a c ≡ true
  pub antisymm : (a b : A) → le a b ≡ true → le b a ≡ true → a ≡ b
  pub is_set : IsSet A

module _ {ℓ} {A : Type ℓ} ⦃o : Order A⦄ where
  pub insert : A → List A → List A
  insert a [] = a ∷ []
  insert a (x ∷ xs) = if o.le a x then a ∷ x ∷ xs else x ∷ insert a xs

  unfoldable pub sort : List A → List A
  unfolding insert
  sort [] = []
  sort (x ∷ xs) = insert x (sort xs)

  insert-perm : (a : A) (xs : List A) → Perm (insert a xs) (a ∷ xs)
  unfolding insert
  insert-perm a [] = Perm.rfl
  insert-perm a (x ∷ xs) = elim (Bool-cases (o.le a x)) [
    | inl e ↦ rw e Perm.rfl
    | inr e ↦ rw e (Perm.trans (Perm.cons x (insert-perm a xs)) (Perm.swap a x xs))
  ]

  pub sort-perm : (xs : List A) → Perm (sort xs) xs
  unfolding sort
  sort-perm [] = Perm.rfl
  sort-perm (x ∷ xs) = Perm.trans (insert-perm x (sort xs)) (Perm.cons x (sort-perm xs))

  insert_comm : (a b : A) (xs : List A) → insert a (insert b xs) ≡ insert b (insert a xs)
  unfolding insert
  insert_comm a b [] = ground (arith, o.total a b, o.antisymm a b)
  insert_comm a b (x ∷ xs) = ground (
    arith,
    insert_comm a b xs,
    o.total a b,
    o.antisymm a b,
    o.total a x,
    o.total b x,
    o.trans a b x,
    o.trans b a x,
    o.trans a x b,
    o.trans b x a,
  )

  sort-eqᴰ : {xs ys : List A} → Permᴰ xs ys → sort xs ≡ sort ys
  unfolding sort
  sort-eqᴰ Permᴰ.nil = refl
  sort-eqᴰ (Permᴰ.cons p r) = ap₂ insert p (sort-eqᴰ r)
  sort-eqᴰ (Permᴰ.swap {a = a} {b = b} {l = l} p q) =
      insert_comm a b (sort l) ∙ ap₂ insert q (ap₂ insert p refl)
  sort-eqᴰ (Permᴰ.trans p q) = sort-eqᴰ p ∙ sort-eqᴰ q

  -- Two lists sort to one list exactly when they hold the same elements, as often.
  pub sort-eq_iff_perm : (xs ys : List A) → (sort xs ≡ sort ys) ↔ Perm xs ys
  sort-eq_iff_perm xs ys = (
    λ e. Perm.trans (Perm.symm (sort-perm xs)) (subst (λ l. Perm l ys) (sym e) (sort-perm ys)),
    λ p. ∥∥₁_elim p (List.is_set o.is_set _ _) sort-eqᴰ,
  )

  pub sort_idem : (xs : List A) → sort (sort xs) ≡ sort xs
  sort_idem xs = (sort-eq_iff_perm (sort xs) xs).1 (sort-perm xs)
