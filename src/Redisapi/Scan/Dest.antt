-- ===== src/Redisapi/Scan/Dest.antt =====
-- The variables that redisapi/scan.go writes through reflection, each with its type. A type with a
-- name of its own is taken as the type that it stands for, so `int` is `int64`.
use grab_redis.Base.{ℕ, zero, suc, ◌-◌, ◌%◌, ◌^◌, Bool, List, [], ◌∷◌, ltb, nat_eq, if◌then◌else◌}
use grab_redis.Base.Int.{ℤ, pos, negsuc}
use grab_redis.Base.Text.{Str}
use grab_redis.Redisapi.Value.{Value}

-- reflect.StructField: `tag` is the field's redis tag.
pub record FieldInfo : Type 0 where
  pub name : Str
  pub exported : Bool
  pub anonymous : Bool
  pub tag : Str

mutual
  -- `slice_dest zero elems spare`: the zero value of the element type, the elements, and those
  -- between the length and the capacity. `nil_ptr` and `ptr` are pointers to a struct, the first
  -- with the struct's zero value. `other_dest` is a variable of a type that the package has no rule
  -- for, by its name: a map, an array, a pointer to something else or any other; the truth value is
  -- whether it is an empty map, an array of no elements or a nil pointer.
  pub data Dest (F : Type 0) : Type 0 where
    int_dest : ℕ → ℤ → Dest F
    uint_dest : ℕ → ℕ → Dest F
    float_dest : ℕ → F → Dest F
    bool_dest : Bool → Dest F
    string_dest : Str → Dest F
    slice_dest : Dest F → Dests F → Dests F → Dest F
    iface_dest : Value → Dest F
    struct_dest : Fields F → Dest F
    nil_ptr ptr : Dest F → Dest F
    other_dest : Str → Bool → Dest F

  pub data Dests (F : Type 0) : Type 0 where
    end : Dests F
    elem : Dest F → Dests F → Dests F

  pub data Fields (F : Type 0) : Type 0 where
    no_more : Fields F
    field : FieldInfo → Dest F → Fields F → Fields F

-- The argument of Scan: nil, a nil pointer, a pointer, or something that is no pointer.
pub data Target (F : Type 0) : Type 0 where
  nil_target nil_pointer not_pointer : Target F
  pointer : Dest F → Target F

module _ {F : Type 0} where
  unfoldable pub dests_of : List (Dest F) → Dests F
  dests_of [] = end
  dests_of (d ∷ ds) = elem d (dests_of ds)

  unfoldable pub list_of : Dests F → List (Dest F)
  list_of end = []
  list_of (elem d ds) = d ∷ list_of ds

  unfoldable pub dests_append : Dests F → Dests F → Dests F
  dests_append end es = es
  dests_append (elem d ds) es = elem d (dests_append ds es)

  unfoldable pub count : Dests F → ℕ
  count end = 0
  count (elem d ds) = suc (count ds)

  unfoldable pub front : ℕ → Dests F → Dests F
  front zero ds = end
  front (suc n) end = end
  front (suc n) (elem d ds) = elem d (front n ds)

  unfoldable pub behind : ℕ → Dests F → Dests F
  behind zero ds = ds
  behind (suc n) end = end
  behind (suc n) (elem d ds) = behind n ds

  unfoldable pub copies : ℕ → Dest F → Dests F
  copies zero d = end
  copies (suc n) d = elem d (copies n d)

  -- `ensureLen`: the elements and the spare ones after it
  unfoldable pub ensure_len : Dest F → Dests F → Dests F → ℕ → Dests F × Dests F
  unfolding dests_append count front behind copies
  ensure_len zero_value elems spare n =
      let all = dests_append elems spare in
      if ltb (count all) n then (copies n zero_value, end) else (front n all, behind n all)

-- The int of so many bits that `SetInt` leaves.
unfoldable pub wrap_int : ℕ → ℤ → ℤ
wrap_int bits (pos n) =
    let m = n % 2 ^ bits in if ltb m (2 ^ (bits - 1)) then pos m else negsuc (2 ^ bits - 1 - m)
wrap_int bits (negsuc n) =
    let m = n % 2 ^ bits in if ltb m (2 ^ (bits - 1)) then negsuc m else pos (2 ^ bits - 1 - m)
