-- ===== src/Config/Address.antt =====
-- config.go: `isAddrsEquals` and `ClientConfig.name`. Both sort the address slice in place, so
-- both return what the slice is afterwards.
use mathlib.Core.List.{Perm}
use mathlib.Core.List.Perm
use grab_redis.Base.{
  Bool, true, false, ◌≡◌, ◌↔◌, refl, sym, ap, ◌∙◌, List, [], ◌∷◌, length, arith, ◌==◌, nat_eq,
  nat_beq_iff, length-perm, if◌then◌else◌, Bool-cases, ==-cases, inl, inr,
}
use grab_redis.Base.Sort.{sort, sort-perm, sort_idem, sort-eq_iff_perm}
use grab_redis.Base.Text.{Str, str, str_eq, str_beq_iff, str_order, join}
use grab_redis.Config.Modes.{mode_single_host}
use grab_redis.Config.Records.{ClientConfig, default_host_and_port}

-- The comparing loop; the lengths are equal there, so the last clause is not reached.
unfoldable pub same_elements : List Str → List Str → Bool
same_elements [] addrs2 = true
same_elements (a ∷ addrs1) (b ∷ addrs2) = if a == b then same_elements addrs1 addrs2 else false
same_elements (a ∷ addrs1) [] = false

unfoldable pub is_addrs_equals : List Str → List Str → Bool × List Str × List Str
unfolding same_elements
is_addrs_equals addrs1 addrs2 =
    if length addrs1 == length addrs2
    then (same_elements (sort addrs1) (sort addrs2), sort addrs1, sort addrs2)
    else (false, addrs1, addrs2)

-- `ClientConfig.name`
unfoldable pub name : ClientConfig → Str × ClientConfig
name c = elim c.addrs [
  | [] ↦ (default_host_and_port, c)
  | first ∷ rest ↦
      if c.client_mode == mode_single_host
      then (first, c)
      else (join (str ",") (sort c.addrs), record c { addrs = sort c.addrs })
]

same_elements_refl : (xs : List Str) → same_elements xs xs ≡ true
unfolding same_elements
same_elements_refl [] = refl
same_elements_refl (x ∷ xs) = ground (arith, (str_beq_iff x x).1 refl, same_elements_refl xs)

same_elements-eq : (xs ys : List Str) → length xs ≡ length ys → same_elements xs ys ≡ true → xs ≡ ys
unfolding same_elements
same_elements-eq [] [] l h = refl
same_elements-eq [] (y ∷ ys) l h = absurd (omega arith)
same_elements-eq (x ∷ xs) [] l h = cc
same_elements-eq (x ∷ xs) (y ∷ ys) l h = ground (arith, str_beq_iff x y, same_elements-eq xs ys)

length-sort : (xs : List Str) → length (sort xs) ≡ length xs
length-sort xs = length-perm (sort-perm xs)

-- The test says exactly that the two lists hold the same addresses, as often, in any order.
pub is_addrs_equals_iff_perm : (xs ys : List Str) → ((is_addrs_equals xs ys).0 ≡ true) ↔ Perm xs ys
unfolding is_addrs_equals
is_addrs_equals_iff_perm xs ys = (to_perm, of_perm)
  where
    to_perm : (is_addrs_equals xs ys).0 ≡ true → Perm xs ys
    to_perm h = elim (==-cases (length xs) (length ys)) [
      | inl (e, l) ↦ (sort-eq_iff_perm xs ys).0 (
          same_elements-eq (sort xs) (sort ys) (omega (arith, length-sort xs, length-sort ys))
            (rw e at h))
      | inr e ↦ let h' : false ≡ true = rw e at h in absurd (cc)
    ]

    of_perm : Perm xs ys → (is_addrs_equals xs ys).0 ≡ true
    of_perm p =
        rw ((nat_beq_iff (length xs) (length ys)).1 (length-perm p))
          (rw ((sort-eq_iff_perm xs ys).1 p) (same_elements_refl (sort ys)))

-- Whatever the test answers, each list keeps its addresses.
pub is_addrs_equals-perm :
    (xs ys : List Str) → Perm (is_addrs_equals xs ys).1 xs × Perm (is_addrs_equals xs ys).2 ys
unfolding is_addrs_equals
is_addrs_equals-perm xs ys = elim (Bool-cases (length xs == length ys)) [
  | inl e ↦ rw e (sort-perm xs, sort-perm ys)
  | inr e ↦ rw e (Perm.rfl, Perm.rfl)
]

sort-cons :
    (a : Str) (rest r : List Str) → sort (a ∷ rest) ≡ r → (b : Str) × (bs : List Str) × (r ≡ b ∷ bs)
sort-cons a rest [] h =
    let same = length-perm (sort-perm (a ∷ rest)) in absurd (omega (arith, same, ap length h))
sort-cons a rest (b ∷ bs) h = (b, bs, refl)

name_none : (c : ClientConfig) → c.addrs ≡ [] → name c ≡ (default_host_and_port, c)
unfolding name
name_none c e = rw e refl

name_one :
    (c : ClientConfig) (first : Str) (rest : List Str)
    → c.addrs ≡ first ∷ rest
    → (c.client_mode == mode_single_host) ≡ true
    → name c ≡ (first, c)
unfolding name
name_one c first rest e one = rw e (rw one refl)

name_many :
    (c : ClientConfig) (first : Str) (rest : List Str)
    → c.addrs ≡ first ∷ rest
    → (c.client_mode == mode_single_host) ≡ false
    → name c ≡ (join (str ",") (sort c.addrs), record c { addrs = sort c.addrs })
unfolding name
name_many c first rest e many = rw e (rw many refl)

-- `name` changes its receiver at most once: the second time it returns the same of what it left.
pub name_idem : (c : ClientConfig) → name (name c).1 ≡ name c
name_idem c = by_addrs c.addrs refl
  where
    by_addrs : (addrs : List Str) → c.addrs ≡ addrs → name (name c).1 ≡ name c
    by_addrs [] e = ap (λ r. name r.1) (name_none c e)
    by_addrs (first ∷ rest) e = elim (Bool-cases (c.client_mode == mode_single_host)) [
      | inl one ↦ ap (λ r. name r.1) (name_one c first rest e one)
      | inr many ↦
          let (b, bs, e') = sort-cons first rest (sort c.addrs) (ap sort (sym e)) in
          let h = name_many c first rest e many in
          let twice : sort (sort c.addrs) ≡ sort c.addrs = sort_idem c.addrs in
          ap (λ r. name r.1) h
          ∙ name_many (record c { addrs = sort c.addrs }) b bs e' many
          ∙ ap (λ l. (join (str ",") l, record c { addrs = l })) twice
          ∙ sym h
    ]
