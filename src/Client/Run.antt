-- ===== src/Client/Run.antt =====
-- `Run` of client.go against what a script is meant to do: a script runs once, whether or not the
-- server has it in its cache.
use grab_redis.Base.{Bool, true, false, ◌≡◌, refl, List, ◌∷◌, Bool-cases, inl, inr, if◌then◌else◌}
use grab_redis.Base.Int.{ℤ, pos, negsuc, is_negative}
use grab_redis.Base.Text.{str}
use grab_redis.Redisapi.Script.{Script, get_hash_and_args, get_script_and_args}
use grab_redis.Redisapi.Value.{Value, simple, integer}
use grab_redis.Client.{Answer, Server, get_result_from_command, do_args, run, is_no_script}

-- What Redis documents of EVALSHA and EVAL for one script, on what stands behind the script or its
-- hash: `numkeys`, the keys and the arguments. EVALSHA with the hash of a script in the cache runs it,
-- and otherwise answers NOSCRIPT and changes nothing; EVAL with the source runs the script. A script
-- does not itself answer NOSCRIPT.
pub record Runs (srv : Server) (script : Script) : Type 0 where
  pub cached : srv.State → Bool
  pub eval : List Value → srv.State → Answer × srv.State
  pub hit :
      (args : List Value) (s : srv.State)
      → cached s ≡ true
      → srv.do_command (simple (str "EVALSHA") ∷ simple script.hash ∷ args) s ≡ eval args s
  pub miss :
      (args : List Value) (s : srv.State)
      → cached s ≡ false
      → let (answer, s') = srv.do_command (simple (str "EVALSHA") ∷ simple script.hash ∷ args) s in
        (is_no_script (get_result_from_command answer).1 ≡ true) × (s' ≡ s)
  pub full :
      (args : List Value) (s : srv.State)
      → srv.do_command (simple (str "EVAL") ∷ simple script.src ∷ args) s ≡ eval args s
  pub plain :
      (args : List Value) (s : srv.State)
      → is_no_script (get_result_from_command (eval args s).0).1 ≡ false

-- What a caller of `Run` means by its arguments: a script with a key count has it in front of them, and
-- one without has it among them.
abbrev pub numbered : ℤ → List Value → List Value
numbered (pos n) args = integer (pos n) ∷ args
numbered (negsuc n) args = args

hash_args :
    (script : Script) (args : List Value)
    → get_hash_and_args script args ≡ simple script.hash ∷ numbered script.key_count args
unfolding get_hash_and_args
hash_args script args = by_count script.key_count
  where
    by_count :
        (n : ℤ)
        → (if is_negative n
            then simple script.hash ∷ args
            else simple script.hash ∷ integer n ∷ args)
          ≡ simple script.hash ∷ numbered n args
    by_count (pos n) = refl
    by_count (negsuc n) = refl

source_args :
    (script : Script) (args : List Value)
    → get_script_and_args script args ≡ simple script.src ∷ numbered script.key_count args
unfolding get_script_and_args
source_args script args = by_count script.key_count
  where
    by_count :
        (n : ℤ)
        → (if is_negative n then simple script.src ∷ args else simple script.src ∷ integer n ∷ args)
          ≡ simple script.src ∷ numbered n args
    by_count (pos n) = refl
    by_count (negsuc n) = refl

module _ (srv : Server) (script : Script) (r : Runs srv script) where
  run_wire :
      (wire args : List Value) (s : srv.State)
      → get_hash_and_args script args ≡ simple script.hash ∷ wire
      → get_script_and_args script args ≡ simple script.src ∷ wire
      → run srv script args s ≡ (get_result_from_command (r.eval wire s).0, (r.eval wire s).1)
  unfolding run do_args
  run_wire wire args s h e = elim (Bool-cases (r.cached s)) [
    | inl known ↦ rw (h, run) (rw (r.hit wire s known) (rw (r.plain wire s)))
    | inr unknown ↦
        let (noscript, same) = r.miss wire s unknown in
        rw (h, run) (rw noscript (rw (e, run) (rw (same, r.full wire s))))
  ]

  -- On a server that runs the script as Redis documents, the caller sees the script run once, on the
  -- state that it found, cached or not, with the key count in front of the arguments if the script
  -- has one, and with the arguments alone if its count is negative.
  pub run-eval :
      (args : List Value) (s : srv.State)
      → let (answer, s') = r.eval (numbered script.key_count args) s in
        run srv script args s ≡ (get_result_from_command answer, s')
  run-eval args s =
      run_wire (numbered script.key_count args) args s (hash_args script args)
        (source_args script args)
