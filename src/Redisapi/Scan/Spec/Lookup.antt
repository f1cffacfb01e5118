-- ===== src/Redisapi/Scan/Spec/Lookup.antt =====
-- The maps of the spec of redisapi/scan.go after an insertion or a removal.
use grab_redis.Base.{
  ◌≡◌, refl, ap, false, Bool-cases, none, some, List, [], ◌∷◌, ◌==◌, ==-cases, ==_refl, nat_eq,
  if◌then◌else◌, inl, inr,
}
use grab_redis.Base.Text.{Str, str_eq}
use grab_redis.Redisapi.Reply.Maps.{insert}
use grab_redis.Redisapi.Scan.Spec.{lookup, remove}

-- Look-ups in the maps of the spec.
pub lookup-insert {ℓ} :
    {V : Type ℓ} (k : Str) (v : V) (m : List (Str × V)) → lookup k (insert k v m) ≡ some v
unfolding lookup insert
lookup-insert k v [] = rw (==_refl k) refl
lookup-insert k v ((k', v') ∷ m) = elim (Bool-cases (k' == k)) [
  | inl e ↦ rw e (rw (==_refl k) refl)
  | inr e ↦ rw e (rw e (lookup-insert k v m))
]

pub lookup-insert_ne {ℓ} :
    {V : Type ℓ} (k name : Str) (v : V) (m : List (Str × V))
    → (k == name) ≡ false
    → lookup name (insert k v m) ≡ lookup name m
unfolding lookup insert
lookup-insert_ne k name v [] h = rw h refl
lookup-insert_ne k name v ((k', v') ∷ m) h = elim (==-cases k' k) [
  | inl (e, same) ↦ rw e (rw h (rw same (rw h refl)))
  | inr e ↦ rw e (ap (λ r. if k' == name then some v' else r) (lookup-insert_ne k name v m h))
]

pub lookup-remove {ℓ} : {V : Type ℓ} (k : Str) (m : List (Str × V)) → lookup k (remove k m) ≡ none
unfolding lookup remove
lookup-remove k [] = refl
lookup-remove k ((k', v') ∷ m) = elim (Bool-cases (k' == k)) [
  | inl e ↦ rw e (lookup-remove k m)
  | inr e ↦ rw e (rw e (lookup-remove k m))
]

pub lookup-remove_ne {ℓ} :
    {V : Type ℓ} (k name : Str) (m : List (Str × V))
    → (k == name) ≡ false
    → lookup name (remove k m) ≡ lookup name m
unfolding lookup remove
lookup-remove_ne k name [] h = refl
lookup-remove_ne k name ((k', v') ∷ m) h = elim (==-cases k' k) [
  | inl (e, same) ↦ rw e (rw same (rw h (lookup-remove_ne k name m h)))
  | inr e ↦ rw e (ap (λ r. if k' == name then some v' else r) (lookup-remove_ne k name m h))
]
