-- ===== src/Client/Pipeline.antt =====
-- `Pipeline` of client.go: one result for each command, and the first error among them.
use grab_redis.Base.{◌≡◌, refl, ◌∙◌, Option, none, some, List, [], ◌∷◌, map, length, length-map}
use grab_redis.Errors.{Error}
use grab_redis.Redisapi.Value.{Value}
use grab_redis.Client.{
  Answer, Server, get_result_from_command, results_from, get_result_from_commands, pipeline,
}

-- The first error of a list of results, if there is one.
pub first_error : List Answer → Option Error
first_error [] = none
first_error ((v, some e) ∷ rs) = some e
first_error ((v, none) ∷ rs) = first_error rs

results_from-some :
    (e : Error) (cmds : List Answer)
    → results_from (some e) cmds ≡ (map get_result_from_command cmds, some e)
unfolding results_from
results_from-some e [] = refl
results_from-some e (cmd ∷ cmds) = rw (results_from-some e cmds)

-- One result in front, given the results behind it.
with_front :
    (r : Answer) (cmds : List Answer)
    → results_from none cmds
      ≡ (map get_result_from_command cmds, first_error (map get_result_from_command cmds))
    → ◌≡◌ {A = List Answer × Option Error}
        (r ∷ (results_from r.1 cmds).0, (results_from r.1 cmds).1)
        (r ∷ map get_result_from_command cmds, first_error (r ∷ map get_result_from_command cmds))
unfolding first_error
with_front (v, none) cmds rest = rw rest
with_front (v, some e) cmds rest = rw (results_from-some e cmds)

results_from-none :
    (cmds : List Answer)
    → results_from none cmds
      ≡ (map get_result_from_command cmds, first_error (map get_result_from_command cmds))
unfolding results_from first_error
results_from-none [] = refl
results_from-none (cmd ∷ cmds) =
    with_front (get_result_from_command cmd) cmds (results_from-none cmds)

module _ (srv : Server) where
  -- A pipeline answers every command, each as a single command would be answered, and returns the
  -- first error among the answers.
  pub pipeline_lem :
      (args_list : List (List Value)) (s : srv.State)
      → let ((results, err), s') = pipeline srv args_list s in
        (length results ≡ length args_list)
        × (results ≡ map get_result_from_command (srv.exec args_list s).0)
        × (err ≡ first_error results)
  unfolding pipeline get_result_from_commands
  pipeline_lem args_list s =
      rw (results_from-none (srv.exec args_list s).0)
        (length-map get_result_from_command _ ∙ srv.length-exec args_list s, refl, refl)
