-- ===== src/Connector/Reload/Pool.antt =====
-- The map `loadTestMap` of `reload` in connector.go: the clients by name, in the order in which they
-- were added.
use mathlib.Core.List.{Perm, perm_middle}
use mathlib.Core.List.Perm
use grab_redis.Base.{
  ℕ, ◌≡◌, refl, sym, subst, Option, none, some, List, [], ◌∷◌, ◌++◌, ◌==◌, if◌then◌else◌,
  Bool-cases, inl, inr, append_assoc,
}
use grab_redis.Base.Text.{Str, str_eq}

abbrev pub ByName : Type 0
ByName = List (Str × List ℕ)

-- `loadTestMap[n] = append(loadTestMap[n], client)`
unfoldable pub add_to : Str → ℕ → ByName → ByName
add_to n id [] = (n, id ∷ []) ∷ []
add_to n id ((m, ids) ∷ pool) =
    if m == n then (m, ids ++ (id ∷ [])) ∷ pool else (m, ids) ∷ add_to n id pool

-- The last element, and those in front of it.
unfoldable pub pop_last : List ℕ → Option (ℕ × List ℕ)
pop_last [] = none
pop_last (x ∷ xs) = elim (pop_last xs) [ none ↦ some (x, []) | some (y, ys) ↦ some (y, x ∷ ys) ]

-- The last client of a name, if there is one.
unfoldable pub take_from : Str → ByName → Option (ℕ × ByName)
unfolding pop_last
take_from n [] = none
take_from n ((m, ids) ∷ pool) =
    if m == n
    then elim (pop_last ids) [ none ↦ none | some (id, ids') ↦ some (id, (m, ids') ∷ pool) ]
    else elim (take_from n pool) [ none ↦ none | some (id, pool') ↦ some (id, (m, ids) ∷ pool') ]

unfoldable pub members : ByName → List ℕ
members [] = []
members ((m, ids) ∷ pool) = ids ++ members pool

pub add_to-perm :
    (n : Str) (id : ℕ) (pool : ByName) → Perm (members (add_to n id pool)) (id ∷ members pool)
unfolding add_to members
add_to-perm n id [] = Perm.rfl
add_to-perm n id ((m, ids) ∷ pool) = elim (Bool-cases (m == n)) [
  | inl e ↦ rw e (
      subst (λ l. Perm l (id ∷ (ids ++ members pool)))
        (sym (append_assoc ids (id ∷ []) (members pool))) (perm_middle ids (members pool)))
  | inr e ↦
      rw e
        (Perm.trans (Perm.append_left ids (add_to-perm n id pool)) (perm_middle ids (members pool)))
]

-- What is taken from a list, and what stays.
abbrev IsPopped : List ℕ → Option (ℕ × List ℕ) → Type 0
IsPopped xs none = xs ≡ []
IsPopped xs (some (y, ys)) = Perm xs (y ∷ ys)

pop_last-IsPopped : (xs : List ℕ) → IsPopped xs (pop_last xs)
unfolding pop_last
pop_last-IsPopped [] = refl
pop_last-IsPopped (x ∷ xs) = behind x xs (pop_last xs) (pop_last-IsPopped xs)
  where
    behind :
        (x : ℕ) (xs : List ℕ) (r : Option (ℕ × List ℕ))
        → IsPopped xs r
        → IsPopped (x ∷ xs) (elim r [ none ↦ some (x, []) | some (y, ys) ↦ some (y, x ∷ ys) ])
    behind x xs none e = subst (λ l. Perm (x ∷ l) (x ∷ [])) (sym e) Perm.rfl
    behind x xs (some (y, ys)) p = Perm.trans (Perm.cons x p) (Perm.swap y x ys)

-- The same of the map.
abbrev pub IsTaken : ByName → Option (ℕ × ByName) → Type 0
IsTaken pool none = Unit
IsTaken pool (some (id, pool')) = Perm (members pool) (id ∷ members pool')

take_front :
    (m : Str) (ids : List ℕ) (pool : ByName) (r : Option (ℕ × List ℕ))
    → IsPopped ids r
    → IsTaken
        ((m, ids) ∷ pool)
        (elim r [ none ↦ none | some (id, ids') ↦ some (id, (m, ids') ∷ pool) ])
unfolding members
take_front m ids pool none p = tt
take_front m ids pool (some (id, ids')) p = Perm.append_right (members pool) p

take_behind :
    (m : Str) (ids : List ℕ) (pool : ByName) (r : Option (ℕ × ByName))
    → IsTaken pool r
    → IsTaken
        ((m, ids) ∷ pool)
        (elim r [ none ↦ none | some (id, pool') ↦ some (id, (m, ids) ∷ pool') ])
unfolding members
take_behind m ids pool none p = tt
take_behind m ids pool (some (id, pool')) p =
    Perm.trans (Perm.append_left ids p) (perm_middle ids (members pool'))

pub take_from-IsTaken : (n : Str) (pool : ByName) → IsTaken pool (take_from n pool)
unfolding take_from
take_from-IsTaken n [] = tt
take_from-IsTaken n ((m, ids) ∷ pool) = elim (Bool-cases (m == n)) [
  | inl e ↦ rw e (take_front m ids pool (pop_last ids) (pop_last-IsPopped ids))
  | inr e ↦ rw e (take_behind m ids pool (take_from n pool) (take_from-IsTaken n pool))
]
