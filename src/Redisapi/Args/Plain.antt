-- ===== src/Redisapi/Args/Plain.antt =====
-- Structs whose fields are all exported, with names of their own, and the specs that redisapi/scan.go
-- compiles for them.
use grab_redis.Base.{
  ℕ, suc, ◌^◌, ◌≡◌, ◌≢◌, refl, ap, Bool, true, false, Option, none, some, List, [], ◌∷◌, ◌++◌, All,
  append_assoc, append-nil, ltb, ◌==◌, ==-cases, nat_eq, inl, inr,
}
use grab_redis.Base.Text.{Str, str_eq}
use grab_redis.Redisapi.Reply.Maps.RoundTrip.{IsFresh, insert-IsFresh}
use grab_redis.Redisapi.Scan.Dest.{Dest, Fields, FieldInfo, no_more, field}
use grab_redis.Redisapi.Scan.Spec.{
  FieldSpec, StructSpec, tagged, tag_of, add_field, named_field, compile, spec_of, empty_spec,
  lookup, depth_of,
}

-- A field of a struct: its zero value, and the value that it has. `label` and `omit` are what the
-- tag says.
pub record Row (F : Type 0) : Type 0 where
  pub info : FieldInfo
  pub label : Str
  pub omit : Bool
  pub blank : Dest F
  pub content : Dest F

lookup-IsFresh {ℓ} :
    {V : Type ℓ} (name : Str) (m : List (Str × V)) → IsFresh name m → lookup name m ≡ none
unfolding lookup
lookup-IsFresh name [] h = refl
lookup-IsFresh name ((k, v) ∷ m) (ne, h) = elim (==-cases k name) [
  | inl (e, same) ↦ absurd (ne same)
  | inr e ↦ rw e (lookup-IsFresh name m h)
]

IsFresh-last {ℓ} :
    {V : Type ℓ} (name key : Str) (v : V) (m : List (Str × V))
    → IsFresh name m
    → key ≢ name
    → IsFresh name (m ++ ((key, v) ∷ []))
IsFresh-last name key v [] h ne = (ne, tt)
IsFresh-last name key v ((k, w) ∷ m) (h, hs) ne = (h, IsFresh-last name key v m hs ne)

depth-IsFresh : (name : Str) (ss : StructSpec) → IsFresh name ss.depth → depth_of name ss ≡ 2 ^ 30
depth-IsFresh name ss h =
    ap (λ (o : Option ℕ). elim o [ none ↦ 2 ^ 30 | some d ↦ d ]) (lookup-IsFresh name ss.depth h)

module _ {F : Type 0} where
  unfoldable pub fields_of : (Row F → Dest F) → List (Row F) → Fields F
  fields_of pick [] = no_more
  fields_of pick (r ∷ rows) = field r.info (pick r) (fields_of pick rows)

  -- An exported field that is not embedded, with its name in the reply.
  pub record IsNamed (r : Row F) : Type 0 where
    pub is_exported : r.info.exported ≡ true
    pub is_no_base : r.info.anonymous ≡ false
    pub has_tag : tag_of r.info ≡ tagged r.label r.omit

  abbrev pub Differs : Str → List (Row F) → Type 0
  Differs name rows = All (λ r. name ≢ r.label) rows

  abbrev pub AreDistinct : List (Row F) → Type 0
  AreDistinct [] = Unit
  AreDistinct (r ∷ rows) = Differs r.label rows × AreDistinct rows

  abbrev pub row_spec : ℕ → Row F → FieldSpec
  row_spec i r = record { name = r.label; index = i ∷ []; omit_empty = r.omit }

  unfoldable pub specs : ℕ → List (Row F) → List FieldSpec
  specs i [] = []
  specs i (r ∷ rows) = row_spec i r ∷ specs (suc i) rows

  unfoldable pub by_name : ℕ → List (Row F) → List (Str × FieldSpec)
  by_name i [] = []
  by_name i (r ∷ rows) = (r.label, row_spec i r) ∷ by_name (suc i) rows

  unfoldable pub depths : List (Row F) → List (Str × ℕ)
  depths [] = []
  depths (r ∷ rows) = (r.label, 0) ∷ depths rows

  -- The spec has none of the names yet.
  abbrev AreOpen : List (Row F) → StructSpec → Type 0
  AreOpen rows ss = All (λ r. IsFresh r.label ss.m × IsFresh r.label ss.depth) rows

  abbrev with_row : ℕ → Row F → StructSpec → StructSpec
  with_row i r ss = record {
    m = ss.m ++ ((r.label, row_spec i r) ∷ []);
    l = ss.l ++ (row_spec i r ∷ []);
    depth = ss.depth ++ ((r.label, 0) ∷ []);
  }

  abbrev with_rows : ℕ → List (Row F) → StructSpec → StructSpec
  with_rows i rows ss = record {
    m = ss.m ++ by_name i rows;
    l = ss.l ++ specs i rows;
    depth = ss.depth ++ depths rows;
  }

  AreOpen-with_row :
      (rows : List (Row F)) (i : ℕ) (r : Row F) (ss : StructSpec)
      → Differs r.label rows
      → AreOpen rows ss
      → AreOpen rows (with_row i r ss)
  AreOpen-with_row [] i r ss d h = tt
  AreOpen-with_row (r' ∷ rows) i r ss (d, ds) ((h, h'), hs) = (
    (
      IsFresh-last r'.label r.label (row_spec i r) ss.m h d,
      IsFresh-last r'.label r.label 0 ss.depth h' d,
    ),
    AreOpen-with_row rows i r ss ds hs,
  )

  add_field-with_row :
      (i : ℕ) (r : Row F) (ss : StructSpec)
      → IsFresh r.label ss.m
      → IsFresh r.label ss.depth
      → add_field r.label r.omit [] i ss ≡ with_row i r ss
  unfolding add_field
  add_field-with_row i r ss h h' =
      let deep = depth-IsFresh r.label ss h' in
      let same = ap (λ d. 0 == d) deep in
      let less = ap (λ d. ltb 0 d) deep in
      rw (same, add_field)
        (rw less (
          rw (insert-IsFresh r.label (row_spec i r) ss.m h)
            (rw (insert-IsFresh r.label 0 ss.depth h') refl)))

  named-with_row :
      (i : ℕ) (r : Row F) (ss : StructSpec)
      → IsNamed r
      → IsFresh r.label ss.m
      → IsFresh r.label ss.depth
      → named_field r.info [] i ss ≡ some (with_row i r ss)
  unfolding named_field
  named-with_row i r ss n h h' =
      rw (n.has_tag, named_field) (ap (λ s. some s) (add_field-with_row i r ss h h'))

  compile-rows :
      (pick : Row F → Dest F) (rows : List (Row F)) (i : ℕ) (ss : StructSpec)
      → All IsNamed rows
      → AreDistinct rows
      → AreOpen rows ss
      → compile (fields_of pick rows) i [] ss ≡ some (with_rows i rows ss)
  unfolding compile fields_of by_name specs depths
  compile-rows pick [] i ss n d o =
      rw (append-nil ss.m) (rw (append-nil ss.l) (rw (append-nil ss.depth) refl))
  compile-rows pick (r ∷ rows) i ss (n, ns) (d, ds) ((o, o'), os) =
      rw (named-with_row i r ss n o o', compile)
        (rw n.is_exported (
          rw n.is_no_base (
            rw
              (compile-rows pick rows (suc i) (with_row i r ss) ns ds
                (AreOpen-with_row rows i r ss d os))
              (rw (append_assoc ss.m ((r.label, row_spec i r) ∷ []) (by_name (suc i) rows)) (
                rw (append_assoc ss.l (row_spec i r ∷ []) (specs (suc i) rows))
                  (rw (append_assoc ss.depth ((r.label, 0) ∷ []) (depths rows)) refl))))))

  AreOpen-empty : (rows : List (Row F)) → AreOpen rows empty_spec
  AreOpen-empty [] = tt
  AreOpen-empty (r ∷ rows) = ((tt, tt), AreOpen-empty rows)

  -- The spec of such a struct, whatever the fields hold: one entry for each field, in order.
  pub spec_of-rows :
      (pick : Row F → Dest F) (rows : List (Row F))
      → All IsNamed rows
      → AreDistinct rows
      → spec_of (fields_of pick rows)
        ≡ some (record { m = by_name 0 rows; l = specs 0 rows; depth = depths rows })
  unfolding spec_of
  spec_of-rows pick rows n d = compile-rows pick rows 0 empty_spec n d (AreOpen-empty rows)
