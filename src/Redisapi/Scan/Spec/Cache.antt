-- ===== src/Redisapi/Scan/Spec/Cache.antt =====
-- redisapi/scan.go: `structSpecForType`, whose cache all goroutines share. A type is a key that Go
-- compares; its fields are a parameter.
use grab_redis.Base.{
  ◌≡◌, refl, sym, ap, ◌∙◌, Bool, true, false, Option, none, some, some-injective, List, [], ◌∷◌,
  ◌==◌, ==-cases, if◌then◌else◌, All, inl, inr, Equality,
}
use grab_redis.Redisapi.Scan.Dest.{Fields}
use grab_redis.Redisapi.Scan.Spec.{StructSpec, spec_of}

if_true : {b : Bool} (x y : Option StructSpec) → b ≡ true → (if b then x else y) ≡ x
if_true x y h = rw h refl

if_false : {b : Bool} (x y : Option StructSpec) → b ≡ false → (if b then x else y) ≡ y
if_false x y h = rw h refl

module _ {T F : Type 0} ⦃e : Equality T⦄ (fields_of : T → Fields F) where
  -- `structSpecCache`
  abbrev pub Cache : Type 0
  Cache = List (T × StructSpec)

  -- The look-up under the read lock, and the first thing under the write lock.
  unfoldable pub read_cache : T → Cache → Option StructSpec
  read_cache t [] = none
  read_cache t ((k, ss) ∷ cache) = if k == t then some ss else read_cache t cache

  -- `if found { return ss }`
  abbrev found_or :
      Option StructSpec → Cache → Option StructSpec × Cache → Option StructSpec × Cache
  found_or (some ss) cache r = (some ss, cache)
  found_or none cache r = r

  abbrev store : T → Cache → Option StructSpec → Option StructSpec × Cache
  store t cache (some ss) = (some ss, (t, ss) ∷ cache)
  store t cache none = (none, cache)

  -- What the write lock guards; `none` is a panic, which leaves the cache as it was.
  unfoldable pub fill_cache : T → Cache → Option StructSpec × Cache
  fill_cache t cache = found_or (read_cache t cache) cache (store t cache (spec_of (fields_of t)))

  -- `structSpecForType`: `cache` is what the read lock shows, and `later`, which other goroutines may
  -- have changed, what is there under the write lock.
  unfoldable pub struct_spec_for_type : T → Cache → Cache → Option StructSpec × Cache
  struct_spec_for_type t cache later = found_or (read_cache t cache) later (fill_cache t later)

  -- Every entry is the spec of its type.
  abbrev pub IsTrue : Cache → Type 0
  IsTrue cache = All (λ p. spec_of (fields_of p.0) ≡ some p.1) cache

  read_cache-IsTrue :
      (t : T) (cache : Cache) (ss : StructSpec)
      → IsTrue cache
      → read_cache t cache ≡ some ss
      → spec_of (fields_of t) ≡ some ss
  unfolding read_cache
  read_cache-IsTrue t [] ss h found = absurd (cc)
  read_cache-IsTrue t ((k, x) ∷ cache) ss (h, hs) found = elim (==-cases k t) [
    | inl (same, is) ↦
        ap (λ k. spec_of (fields_of k)) (sym is)
        ∙ h
        ∙ ap (λ y. some y)
            (some-injective _ _ (sym (if_true (some x) (read_cache t cache) same) ∙ found))
    | inr other ↦
        read_cache-IsTrue t cache ss hs (sym (if_false (some x) (read_cache t cache) other) ∙ found)
  ]

  -- An answer with its cache.
  abbrev IsAnswer : T → Option StructSpec × Cache → Type 0
  IsAnswer t (r, cache) = (r ≡ spec_of (fields_of t)) × IsTrue cache

  found_or-IsAnswer :
      (t : T) (cache : Cache) (r : Option StructSpec) (other : Option StructSpec × Cache)
      → ((ss : StructSpec) → r ≡ some ss → spec_of (fields_of t) ≡ some ss)
      → IsTrue cache
      → IsAnswer t other
      → IsAnswer t (found_or r cache other)
  found_or-IsAnswer t cache none other found h o = o
  found_or-IsAnswer t cache (some ss) other found h o = (sym (found ss refl), h)

  store-IsAnswer :
      (t : T) (cache : Cache) (r : Option StructSpec)
      → spec_of (fields_of t) ≡ r
      → IsTrue cache
      → IsAnswer t (store t cache r)
  store-IsAnswer t cache none is h = (sym is, h)
  store-IsAnswer t cache (some ss) is h = (sym is, (is, h))

  -- The cache cannot be seen: if every entry is the spec of its type, then whatever other goroutines
  -- do between the two locks, `structSpecForType` answers, or panics, as `compileStructSpec` does for
  -- the type, and every entry is the spec of its type afterwards.
  pub struct_spec_for_type-spec_of :
      (t : T) (cache later : Cache)
      → IsTrue cache
      → IsTrue later
      → ((struct_spec_for_type t cache later).0 ≡ spec_of (fields_of t))
        × IsTrue (struct_spec_for_type t cache later).1
  unfolding struct_spec_for_type fill_cache
  struct_spec_for_type-spec_of t cache later h h' =
      found_or-IsAnswer t later (read_cache t cache) (fill_cache t later)
        (λ ss found. read_cache-IsTrue t cache ss h found) h'
        (found_or-IsAnswer t later (read_cache t later) (store t later (spec_of (fields_of t)))
          (λ ss found. read_cache-IsTrue t later ss h' found) h'
          (store-IsAnswer t later (spec_of (fields_of t)) refl h'))
