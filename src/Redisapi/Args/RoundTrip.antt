-- ===== src/Redisapi/Args/RoundTrip.antt =====
-- A struct that `AddFlat` of redisapi/args.go wrote to a hash, read back by `ScanStruct` of
-- redisapi/scan.go.
use grab_redis.Base.{
  ℕ, suc, ◌+◌, ◌%◌, ◌≡◌, ◌≢◌, refl, ap, sym, ◌∙◌, true, ◌&&◌, Bool-cases, none, some, List, [], ◌∷◌,
  ◌++◌, map, length, length-append, length-map, All, append_assoc, append-nil, subst, arith,
  ==-cases, ==_refl, nat_eq, if◌then◌else◌, inl, inr,
}
use grab_redis.Base.Text.{Str, str_eq}
use grab_redis.Float.{FloatText}
use grab_redis.Redisapi.Args.{is_empty, flatten_fields, flatten_struct, add_flat, plain}
use grab_redis.Redisapi.Args.Plain.{
  Row, fields_of, IsNamed, Differs, AreDistinct, row_spec, specs, by_name, depths, spec_of-rows,
}
use grab_redis.Redisapi.Scan.Assign.{assign_value}
use grab_redis.Redisapi.Scan.Dest.{Dest, Fields, string_dest, struct_dest, field, pointer}
use grab_redis.Redisapi.Scan.Spec.{FieldSpec, StructSpec, lookup}
use grab_redis.Redisapi.Scan.Structs.{
  at_path, nth_field, put_path, put_field, assign_field, assign_pair, scan_pairs, scan_struct,
}
use grab_redis.Redisapi.Failure.{key_not_bulk}
use grab_redis.Redisapi.Value.{Value, bulk, simple}

module _ {F : Type 0} where
  -- The first fields have their contents, the others are blank.
  joined : List (Row F) → List (Row F) → Fields F
  joined [] rest = fields_of (λ r. r.blank) rest
  joined (r ∷ done) rest = field r.info r.content (joined done rest)

  nth-joined :
      (done : List (Row F)) (r : Row F) (rest : List (Row F))
      → nth_field (joined done (r ∷ rest)) (length done) [] ≡ some r.blank
  unfolding joined fields_of nth_field at_path
  nth-joined [] r rest = refl
  nth-joined (r' ∷ done) r rest = nth-joined done r rest

  put-joined :
      (done : List (Row F)) (r : Row F) (rest : List (Row F))
      → put_field (joined done (r ∷ rest)) (length done) [] r.content
        ≡ joined (done ++ (r ∷ [])) rest
  unfolding joined fields_of put_field put_path
  put-joined [] r rest = refl
  put-joined (r' ∷ done) r rest = ap (λ fs. field r'.info r'.content fs) (put-joined done r rest)

  joined-skip :
      (done : List (Row F)) (r : Row F) (rest : List (Row F))
      → r.content ≡ r.blank
      → joined done (r ∷ rest) ≡ joined (done ++ (r ∷ [])) rest
  unfolding joined fields_of
  joined-skip [] r rest h = ap (λ d. field r.info d (fields_of (λ r. r.blank) rest)) (sym h)
  joined-skip (r' ∷ done) r rest h =
      ap (λ fs. field r'.info r'.content fs) (joined-skip done r rest h)

  joined-end : (rows : List (Row F)) → joined rows [] ≡ fields_of (λ r. r.content) rows
  unfolding joined fields_of
  joined-end [] = refl
  joined-end (r ∷ rows) = ap (λ fs. field r.info r.content fs) (joined-end rows)

  -- Each name is found, with its place.
  abbrev Finds : List (Str × FieldSpec) → ℕ → List (Row F) → Type 0
  Finds m i [] = Unit
  Finds m i (r ∷ rows) = (lookup r.label m ≡ some (row_spec i r)) × Finds m (suc i) rows

  Finds-cons :
      (key : Str) (fs : FieldSpec) (m : List (Str × FieldSpec)) (i : ℕ) (rows : List (Row F))
      → Differs key rows
      → Finds m i rows
      → Finds ((key, fs) ∷ m) i rows
  unfolding lookup
  Finds-cons key fs m i [] d h = tt
  Finds-cons key fs m i (r ∷ rows) (d, ds) (h, hs) = elim (==-cases key r.label) [
    | inl (e, same) ↦ absurd (d same)
    | inr e ↦ (rw (e, lookup) h, Finds-cons key fs m (suc i) rows ds hs)
  ]

  Finds-by_name : (i : ℕ) (rows : List (Row F)) → AreDistinct rows → Finds (by_name i rows) i rows
  unfolding by_name lookup
  Finds-by_name i [] d = tt
  Finds-by_name i (r ∷ rows) (d, ds) = (
    rw (==_refl r.label) refl,
    Finds-cons r.label (row_spec i r) (by_name (suc i) rows) (suc i) rows d
        (Finds-by_name (suc i) rows ds),
  )

module _ (f : FloatText) where
  -- What is appended for the fields: a name and a value, without the empty ones to be omitted.
  args_of : List (Row f.Float) → List (Dest f.Float)
  args_of [] = []
  args_of (r ∷ rows) =
      if r.omit && is_empty f r.content
      then args_of rows
      else string_dest r.label ∷ r.content ∷ args_of rows

  flatten_fields-rows :
      (whole : Fields f.Float) (i : ℕ) (rows : List (Row f.Float))
      → ((j : ℕ) → nth_field whole (i + j) [] ≡ nth_field (fields_of (λ r. r.content) rows) j [])
      → flatten_fields f (specs i rows) (struct_dest whole) ≡ some (args_of rows)
  unfolding flatten_fields args_of specs fields_of nth_field at_path
  flatten_fields-rows whole i [] h = refl
  flatten_fields-rows whole i (r ∷ rows) h =
      rw (here ∙ h 0, flatten_fields)
        (rw (flatten_fields-rows whole (suc i) rows there)
          (elim (Bool-cases (r.omit && is_empty f r.content)) [
            | inl e ↦ rw e refl
            | inr e ↦ rw e refl
          ]))
    where
      here : nth_field whole i [] ≡ nth_field whole (i + 0) []
      here = ap (λ k. nth_field whole k []) (omega arith)

      there :
          (j : ℕ)
          → nth_field whole (suc i + j) [] ≡ nth_field (fields_of (λ r. r.content) rows) j []
      there j = ap (λ k. nth_field whole k []) (omega arith) ∙ h (suc j)

  flatten_struct-rows :
      (rows : List (Row f.Float))
      → All IsNamed rows
      → AreDistinct rows
      → flatten_struct f [] (fields_of (λ r. r.content) rows) ≡ some (args_of rows)
  unfolding flatten_struct
  flatten_struct-rows rows n d =
      rw (spec_of-rows (λ r. r.content) rows n d, flatten_struct)
        (rw
          (flatten_fields-rows (fields_of (λ r. r.content) rows) 0 rows
            (λ j. ap (λ k. nth_field (fields_of (λ r. r.content) rows) k []) (omega arith)))
          refl)

  module _ (wire : Dest f.Float → Str) (wire_string : (s : Str) → wire (string_dest s) ≡ s) where
    -- The reply to HGETALL after the arguments were written.
    abbrev pub reply_of : List (Dest f.Float) → List Value
    reply_of args = map (λ a. bulk (wire a)) args

    -- The text of the field reads as its value, into a blank field.
    abbrev pub ReadsBack : Row f.Float → Type 0
    ReadsBack r = assign_value f r.blank (bulk (wire r.content)) ≡ some (r.content, none)

    -- An empty field that is left out is the blank one.
    abbrev pub IsBlank : Row f.Float → Type 0
    IsBlank r = (r.omit && is_empty f r.content) ≡ true → r.content ≡ r.blank

    even-args_of : (rows : List (Row f.Float)) → length (reply_of (args_of rows)) % 2 ≡ 0
    unfolding args_of
    even-args_of [] = refl
    even-args_of (r ∷ rows) = elim (Bool-cases (r.omit && is_empty f r.content)) [
      | inl e ↦ rw e (even-args_of rows)
      | inr e ↦ rw e (omega (arith, even-args_of rows))
    ]

    assign_pair-row :
        (ss : StructSpec) (k i : ℕ) (done : List (Row f.Float)) (r : Row f.Float)
        (rest : List (Row f.Float))
        → i ≡ length done
        → lookup r.label ss.m ≡ some (row_spec i r)
        → ReadsBack r
        → assign_pair f ss k
            (bulk (wire (string_dest r.label)))
            (bulk (wire r.content))
            (struct_dest (joined done (r ∷ rest)))
          ≡ some (struct_dest (joined (done ++ (r ∷ [])) rest), none)
    unfolding assign_pair assign_field at_path put_path
    assign_pair-row ss k i done r rest h found reads =
        rw (wire_string r.label, assign_pair)
          (rw found (
            rw h (
              rw (nth-joined done r rest, assign_field)
                (rw reads (ap (λ fs. some (struct_dest fs, none)) (put-joined done r rest))))))

    scan_pairs-rows :
        (ss : StructSpec) (k i : ℕ) (done rest : List (Row f.Float))
        → i ≡ length done
        → Finds ss.m i rest
        → All ReadsBack rest
        → All IsBlank rest
        → scan_pairs f ss k (reply_of (args_of rest)) (struct_dest (joined done rest))
          ≡ some (struct_dest (joined (done ++ rest) []), none)
    unfolding scan_pairs args_of
    scan_pairs-rows ss k i done [] h found reads blanks = rw (append-nil done) refl
    scan_pairs-rows ss k i done (r ∷ rest) h (found, founds) (reads, readss) (blank, blanks) =
        let next : (k : ℕ)
            → scan_pairs f ss k (reply_of (args_of rest))
                (struct_dest (joined (done ++ (r ∷ [])) rest))
              ≡ some (struct_dest (joined ((done ++ (r ∷ [])) ++ rest) []), none) =
          λ k.
            scan_pairs-rows ss k (suc i) (done ++ (r ∷ [])) rest
              (rw (length-append done (r ∷ [])) (omega arith)) founds readss blanks in
        subst
          (λ rows.
            scan_pairs f ss k (reply_of (args_of (r ∷ rest))) (struct_dest (joined done (r ∷ rest)))
            ≡ some (struct_dest (joined rows []), none))
          (append_assoc done (r ∷ []) rest)
          (elim (Bool-cases (r.omit && is_empty f r.content)) [
            | inl e ↦ rw e (rw (joined-skip done r rest (blank e)) (next k))
            | inr e ↦
                rw e
                  (rw (assign_pair-row ss k i done r rest h found reads, scan_pairs) (next (k + 2)))
          ])

    -- The same reply with Go strings, as goredis sends it.
    abbrev pub strings_of : List (Dest f.Float) → List Value
    strings_of args = map (λ a. simple (wire a)) args

    scan_pairs-strings :
        (ss : StructSpec) (args : List (Dest f.Float)) (d : Dest f.Float)
        → args ≢ []
        → length args % 2 ≡ 0
        → scan_pairs f ss 0 (strings_of args) d ≡ some (d, some (key_not_bulk 0))
    unfolding scan_pairs assign_pair
    scan_pairs-strings ss [] d n e = absurd (n refl)
    scan_pairs-strings ss (a ∷ []) d n e = absurd (omega arith)
    scan_pairs-strings ss (a ∷ b ∷ args) d n e = refl

    scan_struct-strings :
        (rows : List (Row f.Float))
        → All IsNamed rows
        → AreDistinct rows
        → args_of rows ≢ []
        → scan_struct f
            (strings_of (args_of rows))
            (pointer (struct_dest (fields_of (λ r. r.blank) rows)))
          ≡ some (some (key_not_bulk 0), pointer (struct_dest (fields_of (λ r. r.blank) rows)))
    unfolding scan_struct
    scan_struct-strings rows n d some_arg =
        let even : length (args_of rows) % 2 ≡ 0 =
          rw (← length-map (λ a. bulk (wire a)) (args_of rows)) (even-args_of rows) in
        rw (spec_of-rows (λ r. r.blank) rows n d, scan_struct)
          (rw (length-map (λ a. simple (wire a)) (args_of rows)) (
            rw even (
              rw
                (scan_pairs-strings
                  (record { m = by_name 0 rows; l = specs 0 rows; depth = depths rows })
                  (args_of rows) (struct_dest (fields_of (λ r. r.blank) rows)) some_arg even)
                refl)))

    -- A flat struct whose fields are exported, with tags that compile and names that differ, where the
    -- text of a name is the name, the text of each value reads as the value into a blank field, and a
    -- value left out as empty is the one of a blank field, is written by `AddFlat`. From the reply to
    -- HGETALL on what was written, `ScanStruct` gives it back if the reply has byte slices; if it has
    -- Go strings, and anything was written, `ScanStruct` refuses its first key and changes nothing.
    pub add_flat-scan_struct :
        (rows : List (Row f.Float))
        → All IsNamed rows
        → AreDistinct rows
        → All ReadsBack rows
        → All IsBlank rows
        → (args : List (Dest f.Float)) × (add_flat f []
              (plain (struct_dest (fields_of (λ r. r.content) rows)))
            ≡ some args)
          × (scan_struct f (reply_of args) (pointer (struct_dest (fields_of (λ r. r.blank) rows)))
              ≡ some (none, pointer (struct_dest (fields_of (λ r. r.content) rows))))
          × (args ≢ []
              → scan_struct f
                  (strings_of args)
                  (pointer (struct_dest (fields_of (λ r. r.blank) rows)))
                ≡ some
                    (some (key_not_bulk 0), pointer (struct_dest (fields_of (λ r. r.blank) rows))))
    unfolding add_flat scan_struct joined
    add_flat-scan_struct rows n d reads blanks = (
      args_of rows,
      flatten_struct-rows rows n d,
      rw (spec_of-rows (λ r. r.blank) rows n d, scan_struct)
          (rw (even-args_of rows) (
            rw
              (scan_pairs-rows
                (record { m = by_name 0 rows; l = specs 0 rows; depth = depths rows }) 0 0 [] rows
                refl (Finds-by_name 0 rows d) reads blanks)
              (ap (λ fs. some (none, pointer (struct_dest fs))) (joined-end rows)))),
      scan_struct-strings rows n d,
    )
