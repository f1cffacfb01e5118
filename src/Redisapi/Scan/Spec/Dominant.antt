-- ===== src/Redisapi/Scan/Spec/Dominant.antt =====
-- Which field a name stands for after `compileStructSpec` of redisapi/scan.go: Go's own rule for
-- embedded structs.
use grab_redis.Base.{
  ℕ, ◌^◌, ◌<◌, ◌≤◌, ◌≡◌, ◌≢◌, refl, ap, sym, subst, ◌∙◌, false, ◌&&◌, Bool-cases, Option, none,
  some, List, [], ◌∷◌, ◌++◌, foldl, All, append-nil, append_assoc, arith, ltb, ltb→lt, ◌==◌,
  ==-cases, nat_eq, ◌⊎◌, inl, inr,
}
use grab_redis.Base.Text.{Str, str_eq}
use grab_redis.Redisapi.Scan.Dest.{Fields}
use grab_redis.Redisapi.Scan.Spec.{
  FieldSpec, StructSpec, add_field, spec_of, empty_spec, lookup, depth_of,
}
use grab_redis.Redisapi.Scan.Spec.Listed.{Named, all_fields, add_named, fold_named, compile-fold}
use grab_redis.Redisapi.Scan.Spec.Depths.{
  depth_in, at_depth, spec_named, sole, IsLeast, at_depth-other, at_depth-same, sole-more,
  append-ne, other_depth, own_depth, at_depth-bound,
}
use grab_redis.Redisapi.Scan.Spec.Lookup.{
  lookup-insert, lookup-insert_ne, lookup-remove, lookup-remove_ne,
}

-- What the spec holds for a name after the fields `done`, `dist` being its entry in `depth`.
abbrev BestAt : Str → ℕ → List Named → Option FieldSpec → Type 0
BestAt name dist done found =
    ((d : ℕ) → d < dist → at_depth name d done ≡ [])
    × (found ≡ sole (at_depth name dist done))
    × ((dist ≡ 2 ^ 30) ⊎ (at_depth name dist done ≢ []))

abbrev Best : Str → List Named → StructSpec → Type 0
Best name done ss = BestAt name (depth_of name ss) done (lookup name ss.m)

-- A field that is not a field of the name at the depths up to that one.
best-other :
    (name : Str) (dist : ℕ) (done : List Named) (g : Named) (found : Option FieldSpec)
    → ((d : ℕ) → d ≤ dist → ((g.label == name) && (depth_in g == d)) ≡ false)
    → BestAt name dist done found
    → BestAt name dist (done ++ (g ∷ [])) found
best-other name dist done g found e (below, is, stands) = (
  (λ d h. at_depth-other name d done g (e d (omega arith)) ∙ below d h),
  rw (at_depth-other name dist done g (e dist (omega arith))) is,
  rw (at_depth-other name dist done g (e dist (omega arith))) stands,
)

-- A second field at the depth of the name.
best-clash :
    (dist : ℕ) (done : List Named) (g : Named) (found : Option FieldSpec)
    → dist ≡ depth_in g
    → dist < 2 ^ 30
    → BestAt g.label dist done found
    → BestAt g.label dist (done ++ (g ∷ [])) none
best-clash dist done g found e small (below, is, inl none_yet) = absurd (omega arith)
best-clash dist done g found e small (below, is, inr stands) =
    let last : at_depth g.label dist (done ++ (g ∷ [])) ≡ at_depth g.label dist done ++ (g ∷ []) =
      at_depth-same g.label dist done g (rw e (own_depth g)) in
    (
      (λ d h.
          at_depth-other g.label d done g (other_depth g.label g d (λ same. omega arith))
          ∙ below d h),
      rw last (sym (sole-more (at_depth g.label dist done) g stands)),
      inr (rw last (append-ne (at_depth g.label dist done) g)),
    )

-- A field above the depth of the name.
best-above :
    (dist : ℕ) (done : List Named) (g : Named) (found : Option FieldSpec)
    → depth_in g < dist
    → BestAt g.label dist done found
    → BestAt g.label (depth_in g) (done ++ (g ∷ [])) (some (spec_named g))
best-above dist done g found h (below, is, stands) =
    let last : at_depth g.label (depth_in g) (done ++ (g ∷ []))
        ≡ at_depth g.label (depth_in g) done ++ (g ∷ []) =
      at_depth-same g.label (depth_in g) done g (own_depth g) in
    (
      (λ d lt.
          at_depth-other g.label d done g (other_depth g.label g d (λ same. omega arith))
          ∙ below d (omega arith)),
      rw last (rw (below (depth_in g) h) refl),
      inr (rw last (append-ne (at_depth g.label (depth_in g) done) g)),
    )

deeper : (k dist : ℕ) → (k == dist) ≡ false → ltb k dist ≡ false → ¬ (k ≤ dist)
deeper k dist ne ge = ground arith

neither_less : (a b : ℕ) → ¬ (a < b) → ¬ (b < a) → a ≡ b
neither_less a b h h' = omega arith

-- A field of the name itself.
add_named-own :
    (done : List Named) (g : Named) (ss : StructSpec)
    → depth_in g < 2 ^ 30
    → Best g.label done ss
    → Best g.label (done ++ (g ∷ [])) (add_named ss g)
unfolding add_field
add_named-own done g ss small b = elim (==-cases (depth_in g) (depth_of g.label ss)) [
  | inl (e, same) ↦
      rw (e, add_field)
        (rw (lookup-remove g.label ss.m) (
          best-clash (depth_of g.label ss) done g (lookup g.label ss.m) (sym same) (omega arith) b))
  | inr e ↦ elim (Bool-cases (ltb (depth_in g) (depth_of g.label ss))) [
    | inl lt ↦
        rw (e, add_field)
          (rw lt (
            rw (lookup-insert g.label (spec_named g) ss.m) (
              rw (lookup-insert g.label (depth_in g) ss.depth, depth_of)
                (best-above (depth_of g.label ss) done g (lookup g.label ss.m) (ltb→lt _ _ lt) b))))
    | inr ge ↦
        rw (e, add_field)
          (rw ge (
            best-other g.label (depth_of g.label ss) done g (lookup g.label ss.m)
              (λ d le.
                other_depth g.label g d
                  (λ same. deeper _ _ e ge (subst (λ k. k ≤ depth_of g.label ss) (sym same) le)))
              b))
  ]
]

-- A field of another name.
add_named-other :
    (name : Str) (done : List Named) (g : Named) (ss : StructSpec)
    → (g.label == name) ≡ false
    → Best name done ss
    → Best name (done ++ (g ∷ [])) (add_named ss g)
unfolding add_field
add_named-other name done g ss ne b =
    let b' : Best name (done ++ (g ∷ [])) ss =
      best-other name (depth_of name ss) done g (lookup name ss.m) (λ d le. rw ne refl) b in
    elim (Bool-cases (depth_in g == depth_of g.label ss)) [
      | inl e ↦ rw (e, add_field) (rw (lookup-remove_ne g.label name ss.m ne) b')
      | inr e ↦ elim (Bool-cases (ltb (depth_in g) (depth_of g.label ss))) [
        | inl lt ↦
            rw (e, add_field)
              (rw lt (
                rw (lookup-insert_ne g.label name (spec_named g) ss.m ne)
                  (rw (lookup-insert_ne g.label name (depth_in g) ss.depth ne, depth_of) b')))
        | inr ge ↦ rw (e, add_field) (rw ge b')
      ]
    ]

add_named-Best :
    (name : Str) (done : List Named) (g : Named) (ss : StructSpec)
    → depth_in g < 2 ^ 30
    → Best name done ss
    → Best name (done ++ (g ∷ [])) (add_named ss g)
add_named-Best name done g ss small b = elim (==-cases g.label name) [
  | inl (e, same) ↦
      subst (λ k. Best k (done ++ (g ∷ [])) (add_named ss g)) same
        (add_named-own done g ss small (subst (λ k. Best k done ss) (sym same) b))
  | inr ne ↦ add_named-other name done g ss ne b
]

fold-Best :
    (name : Str) (gs done : List Named) (ss : StructSpec)
    → All (λ g. depth_in g < 2 ^ 30) gs
    → Best name done ss
    → Best name (done ++ gs) (foldl add_named ss gs)
fold-Best name [] done ss small b = rw (append-nil done) b
fold-Best name (g ∷ gs) done ss (h, small) b =
    subst (λ l. Best name l (foldl add_named ss (g ∷ gs))) (append_assoc done (g ∷ []) gs)
      (fold-Best name gs (done ++ (g ∷ [])) (add_named ss g) small
        (add_named-Best name done g ss h b))

empty_spec-Best : (name : Str) → Best name [] empty_spec
unfolding lookup at_depth
empty_spec-Best name = ((λ d h. refl), refl, inl refl)

-- The spec of a struct type keeps a name exactly where Go's rule for embedded structs selects a
-- field: of the fields of the name it keeps the one at the least depth, and none if two stand
-- there. The depths are below 2^30.
pub spec_of-dominant :
    {F : Type 0} (fields : Fields F) (gs : List Named) (name : Str)
    → all_fields fields 0 [] ≡ some gs
    → All (λ g. depth_in g < 2 ^ 30) gs
    → (ss : StructSpec) × (spec_of fields ≡ some ss)
      × ((d : ℕ) → IsLeast name d gs → lookup name ss.m ≡ sole (at_depth name d gs))
      × (((d : ℕ) → at_depth name d gs ≡ []) → lookup name ss.m ≡ none)
unfolding spec_of
spec_of-dominant fields gs name listed small =
    let b : Best name gs (foldl add_named empty_spec gs) =
      fold-Best name gs [] empty_spec small (empty_spec-Best name) in
    (
      foldl add_named empty_spec gs,
      compile-fold fields 0 [] empty_spec ∙ ap (fold_named empty_spec) listed,
      least (foldl add_named empty_spec gs) b,
      λ absent. (nowhere (foldl add_named empty_spec gs) b absent),
    )
  where
    nowhere :
        (ss : StructSpec)
        → Best name gs ss
        → ((d : ℕ) → at_depth name d gs ≡ [])
        → lookup name ss.m ≡ none
    nowhere ss (below, is, stands) absent = is ∙ ap sole (absent (depth_of name ss))

    least :
        (ss : StructSpec)
        → Best name gs ss
        → (d : ℕ) → IsLeast name d gs
        → lookup name ss.m ≡ sole (at_depth name d gs)
    least ss (below, is, inl none_yet) d (no_less, some_there) =
        absurd (some_there (below d (rw none_yet (at_depth-bound name d gs small some_there))))
    least ss (below, is, inr stands) d (no_less, some_there) =
        is
        ∙ ap (λ k. sole (at_depth name k gs))
            (neither_less (depth_of name ss) d (λ h. stands (no_less (depth_of name ss) h))
              (λ h. some_there (below d h)))
