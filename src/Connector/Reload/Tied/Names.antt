-- ===== src/Connector/Reload/Tied/Names.antt =====
-- The map by name in `reload` of connector.go: who stands under which name.
use grab_redis.Base.{
  ℕ, ◌≡◌, ◌≢◌, ◌⊎◌, refl, sym, ap, ◌∙◌, Option, none, some, List, [], ◌∷◌, All, All-snoc, arith,
  nat_eq, inl, inr, ==-cases, ==_refl, Bool-cases, true, false, subst, ◌==◌,
}
use grab_redis.Base.Text.{Str, str_eq}
use grab_redis.Config.Address.{name, name_idem}
use grab_redis.Connector.Reload.{ClientImpl, Connector, put, index_clients}
use grab_redis.Connector.Mirror.Counts.{times, times-append, times_none, times_other}
use grab_redis.Connector.Reload.Pool.{ByName, add_to, take_from, pop_last, members}
use grab_redis.Connector.Reload.Tied.{named, Same}

named_idem : (c : ClientImpl) → named (named c) ≡ named c
named_idem c = ap (λ r. record c { config = r.1 }) (name_idem c.config)

pub put-Same :
    (id : ℕ) (c : ClientImpl) (k : Connector)
    → ((put id c k).clients id ≡ c) × Same id k (put id c k)
unfolding put
put-Same id c k = (rw (==_refl id) refl, λ j n. ground arith)

module _ (start : ℕ → ClientImpl) where
  -- The clients under a name in the map have that name.
  abbrev pub IsNamed : Str → List ℕ → Type 0
  IsNamed n ids = All (λ id. (name (start id).config).0 ≡ n) ids

  abbrev pub Other : Str → ByName → Type 0
  Other m pool = All (λ e. e.0 ≢ m) pool

  -- Each name stands once, with clients of that name.
  abbrev pub AreNamed : ByName → Type 0
  AreNamed [] = Unit
  AreNamed ((m, ids) ∷ pool) = IsNamed m ids × Other m pool × AreNamed pool

  -- No client of the map has the name.
  abbrev pub Missing : Str → ByName → Type 0
  Missing n pool = (j : ℕ) → (name (start j).config).0 ≡ n → times j (members pool) ≡ 0

  IsNamed-times :
      (m n : Str) (ids : List ℕ)
      → m ≢ n
      → IsNamed m ids
      → (j : ℕ) → (name (start j).config).0 ≡ n
      → times j ids ≡ 0
  IsNamed-times m n [] d h j e = times_none j
  IsNamed-times m n (id ∷ ids) d (p, h) j e =
      times_other j id ids (λ same. d (sym p ∙ ap (λ i. (name (start i).config).0) (sym same) ∙ e))
      ∙ IsNamed-times m n ids d h j e

  Missing-cons :
      (m n : Str) (ids : List ℕ) (pool : ByName)
      → ((j : ℕ) → (name (start j).config).0 ≡ n → times j ids ≡ 0)
      → Missing n pool
      → Missing n ((m, ids) ∷ pool)
  unfolding members
  Missing-cons m n ids pool h g j e = omega (arith, times-append j ids (members pool), h j e, g j e)

  Other-Missing : (n : Str) (pool : ByName) → Other n pool → AreNamed pool → Missing n pool
  unfolding members
  Other-Missing n [] o h = λ j e. times_none j
  Other-Missing n ((m, ids) ∷ pool) (d, o) (h, o', hs) =
      Missing-cons m n ids pool (IsNamed-times m n ids d h) (Other-Missing n pool o hs)

  abbrev IsPopped : Str → List ℕ → Option (ℕ × List ℕ) → Type 0
  IsPopped n ids none = ids ≡ []
  IsPopped n ids (some (id, ids')) = ((name (start id).config).0 ≡ n) × IsNamed n ids'

  pop_last-IsPopped : (n : Str) (ids : List ℕ) → IsNamed n ids → IsPopped n ids (pop_last ids)
  unfolding pop_last
  pop_last-IsPopped n [] h = refl
  pop_last-IsPopped n (x ∷ xs) (e, h) = behind (pop_last xs) (pop_last-IsPopped n xs h)
    where
      behind :
          (r : Option (ℕ × List ℕ))
          → IsPopped n xs r
          → IsPopped n (x ∷ xs) (elim r [ none ↦ some (x, []) | some (y, ys) ↦ some (y, x ∷ ys) ])
      behind none p = (e, tt)
      behind (some (y, ys)) (p, q) = (p, (e, q))

  -- What a look for a name gives: no client has it, or one that has.
  abbrev pub IsTaken : Str → ByName → Option (ℕ × ByName) → Type 0
  IsTaken n pool none = Missing n pool
  IsTaken n pool (some (id, pool')) = ((name (start id).config).0 ≡ n) × AreNamed pool'

  abbrev KeepsOther : Str → Option (ℕ × ByName) → Type 0
  KeepsOther x none = Unit
  KeepsOther x (some (id, pool)) = Other x pool

  take_from-KeepsOther :
      (x n : Str) (pool : ByName) → Other x pool → KeepsOther x (take_from n pool)
  unfolding take_from
  take_from-KeepsOther x n [] o = tt
  take_from-KeepsOther x n ((m, ids) ∷ pool) (d, o) = elim (Bool-cases (m == n)) [
    | inl e ↦ rw e (in_front (pop_last ids))
    | inr e ↦ rw e (further (take_from n pool) (take_from-KeepsOther x n pool o))
  ]
    where
      in_front :
          (r : Option (ℕ × List ℕ))
          → KeepsOther x (elim r [ none ↦ none | some (id, ids') ↦ some (id, (m, ids') ∷ pool) ])
      in_front none = tt
      in_front (some (id, ids')) = (d, o)

      further :
          (r : Option (ℕ × ByName))
          → KeepsOther x r
          → KeepsOther x (elim r [ none ↦ none | some (id, pool') ↦ some (id, (m, ids) ∷ pool') ])
      further none h = tt
      further (some (id, pool')) h = (d, h)

  take_front :
      (m n : Str) (ids : List ℕ) (pool : ByName) (r : Option (ℕ × List ℕ))
      → m ≡ n
      → IsPopped m ids r
      → Other m pool
      → AreNamed pool
      → IsTaken n
          ((m, ids) ∷ pool)
          (elim r [ none ↦ none | some (id, ids') ↦ some (id, (m, ids') ∷ pool) ])
  take_front m n ids pool none e p o h =
      Missing-cons m n ids pool (λ j t. rw p (times_none j))
        (Other-Missing n pool (subst (λ x. Other x pool) e o) h)
  take_front m n ids pool (some (id, ids')) e (p, q) o h = (p ∙ e, (q, o, h))

  take_behind :
      (m n : Str) (ids : List ℕ) (pool : ByName) (r : Option (ℕ × ByName))
      → m ≢ n
      → IsNamed m ids
      → KeepsOther m r
      → IsTaken n pool r
      → IsTaken n
          ((m, ids) ∷ pool)
          (elim r [ none ↦ none | some (id, pool') ↦ some (id, (m, ids) ∷ pool') ])
  take_behind m n ids pool none d h o t = Missing-cons m n ids pool (IsNamed-times m n ids d h) t
  take_behind m n ids pool (some (id, pool')) d h o (p, q) = (p, (h, o, q))

  differs : (m n : Str) → (m == n) ≡ false → m ≢ n
  differs m n e p = let t : (m == n) ≡ true = rw p (==_refl n) in absurd (cc)

  -- The client that is taken has the name; where none is, no client of the map has it.
  pub take_from-named :
      (n : Str) (pool : ByName) → AreNamed pool → IsTaken n pool (take_from n pool)
  unfolding take_from members
  take_from-named n [] h = λ j e. times_none j
  take_from-named n ((m, ids) ∷ pool) (h, o, hs) = elim (==-cases m n) [
    | inl (e, same) ↦
        rw e (take_front m n ids pool (pop_last ids) same (pop_last-IsPopped m ids h) o hs)
    | inr e ↦ rw e (
        take_behind m n ids pool (take_from n pool) (differs m n e) h
          (take_from-KeepsOther m n pool o) (take_from-named n pool hs))
  ]

  add_to-Other :
      (x n : Str) (id : ℕ) (pool : ByName) → n ≢ x → Other x pool → Other x (add_to n id pool)
  unfolding add_to
  add_to-Other x n id [] d o = (d, tt)
  add_to-Other x n id ((m, ids) ∷ pool) d (c, o) = elim (Bool-cases (m == n)) [
    | inl t ↦ rw t (c, o)
    | inr t ↦ rw t (c, add_to-Other x n id pool d o)
  ]

  add_to-named :
      (n : Str) (id : ℕ) (pool : ByName)
      → (name (start id).config).0 ≡ n
      → AreNamed pool
      → AreNamed (add_to n id pool)
  unfolding add_to
  add_to-named n id [] e h = ((e, tt), tt, tt)
  add_to-named n id ((m, ids) ∷ pool) e (h, o, hs) = elim (==-cases m n) [
    | inl (t, same) ↦
        rw t (All-snoc (λ i. (name (start i).config).0 ≡ m) ids id h (e ∙ sym same), o, hs)
    | inr t ↦
        rw t
          (h, add_to-Other m n id pool (λ p. differs m n t (sym p)) o, add_to-named n id pool e hs)
  ]

  -- The loop over the old clients fills the map, and leaves each of them with its addresses sorted.
  pub index_clients-Stored :
      (ids : List ℕ) (pool : ByName) (k : Connector)
      → AreNamed pool
      → ((j : ℕ) → named (k.clients j) ≡ start j)
      → let (pool', k') = index_clients ids pool k in
        AreNamed pool'
        × ((j : ℕ) → (k.clients j ≡ start j) ⊎ (times j ids ≢ 0) → k'.clients j ≡ start j)
  unfolding index_clients
  index_clients-Stored [] pool k h e =
      (h, λ j c. elim c [ inl same ↦ same | inr there ↦ absurd (there (times_none j)) ])
  index_clients-Stored (id ∷ ids) pool k h e =
      let n = (name (k.clients id).config).0 in
      let k1 = put id (named (k.clients id)) k in
      let (here, others) = put-Same id (named (k.clients id)) k in
      let same_name : (name (start id).config).0 ≡ n =
        ap (λ c. (name c.config).0) (sym (e id))
        ∙ ap (λ r. r.0) (name_idem (k.clients id).config) in
      let still : (j : ℕ) → named (k1.clients j) ≡ start j = λ j. elim (==-cases j id) [
        | inl (t, same) ↦ rw (same, here) (named_idem (k.clients id) ∙ e id)
        | inr t ↦ ap named (others j (λ p. ground (arith, ==_refl id))) ∙ e j
      ] in
      let (names, olds) =
        index_clients-Stored ids (add_to n id pool) k1 (add_to-named n id pool same_name h) still in
      (
        names,
        λ j c. olds j (elim (==-cases j id) [
          | inl (t, same) ↦ inl (rw same (here ∙ e id))
          | inr t ↦
              let other : j ≢ id = λ p. ground (arith, ==_refl id) in
              elim c [
                | inl same ↦ inl (others j other ∙ same)
                | inr there ↦ inr (λ z. there (times_other j id ids other ∙ z))
              ]
        ]),
      )
