-- ===== src/Redisapi/Value.antt =====
-- The `interface{}` values of commands and replies, by their dynamic type. `bulk` is []byte,
-- `simple` is string, `array` is []interface{}; `other` is any other type, by its name.
use grab_redis.Base.{List, [], ◌∷◌, ◌≡◌, refl, ap}
use grab_redis.Base.Int.{ℤ}
use grab_redis.Base.Text.{Str}

mutual
  pub data Value : Type 0 where
    null : Value
    integer : ℤ → Value
    bulk : Str → Value
    simple : Str → Value
    array : Values → Value
    other : Str → Value

  pub data Values : Type 0 where
    nil : Values
    cons : Value → Values → Values

unfoldable pub to_list : Values → List Value
to_list nil = []
to_list (cons v vs) = v ∷ to_list vs

unfoldable pub of_list : List Value → Values
of_list [] = nil
of_list (v ∷ vs) = cons v (of_list vs)

pub to_list-of_list : (vs : List Value) → to_list (of_list vs) ≡ vs
unfolding to_list of_list
to_list-of_list [] = refl
to_list-of_list (v ∷ vs) = ap (λ l. v ∷ l) (to_list-of_list vs)

-- How a client hands on a text of a reply: as a byte slice, or as a Go string as goredis does.
pub data TextKind : Type 0 where
  as_bytes as_string : TextKind

abbrev pub text_value : TextKind → Str → Value
text_value as_bytes s = bulk s
text_value as_string s = simple s
