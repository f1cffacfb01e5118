-- ===== src/Wrapper/Cluster/Limiters.antt =====
-- The loops over the shards in cluster_wrapper.go: every shard ends with the limiter meant for it,
-- also where an address is listed twice.
use grab_redis.Base.{
  ◌≡◌, refl, sym, ap, ◌∙◌, Option, none, some, List, [], ◌∷◌, ◌++◌, map, All, inl, inr, ==-cases,
  ==_refl,
}
use grab_redis.Base.Text.{Str, str_eq}
use grab_redis.Breaker.Options.{CbSetter}
use grab_redis.Config.Modes.{Hystrix}
use grab_redis.Limiter.{Limiter, new_limiter, generate_cb_key, reconfigure_hystrix, Effect}
use grab_redis.Wrapper.Calls.{Call, replay, hystrix, set_shard_limiter}
use grab_redis.Wrapper.Cluster.{install_limiters, remove_limiters}
use grab_redis.Wrapper.Cluster.Sync.{Cluster, set_cluster}

-- Setting one limiter for each address, by a function of the address.
set_each : (Str → Option Limiter) → List Str → Cluster → Cluster
set_each f [] v = v
set_each f (a ∷ as') v = set_each f as' (set_cluster (set_shard_limiter a (f a)) v)

options-set_each :
    (f : Str → Option Limiter) (as' : List Str) (v : Cluster)
    → (set_each f as' v).options ≡ v.options
unfolding set_each set_cluster
options-set_each f [] v = refl
options-set_each f (a ∷ as') v = options-set_each f as' (set_cluster (set_shard_limiter a (f a)) v)

set_each_keeps :
    (f : Str → Option Limiter) (as' : List Str) (v : Cluster) (x : Str)
    → v.limiters x ≡ f x
    → (set_each f as' v).limiters x ≡ f x
unfolding set_each set_cluster
set_each_keeps f [] v x h = h
set_each_keeps f (a ∷ as') v x h =
    set_each_keeps f as' (set_cluster (set_shard_limiter a (f a)) v) x
      (elim (==-cases x a) [ inl (e, same) ↦ rw e (ap f (sym same)) | inr e ↦ rw e h ])

set_each-All :
    (f : Str → Option Limiter) (as' : List Str) (v : Cluster)
    → All (λ a. (set_each f as' v).limiters a ≡ f a) as'
unfolding set_each set_cluster
set_each-All f [] v = tt
set_each-All f (a ∷ as') v = (
  set_each_keeps f as' (set_cluster (set_shard_limiter a (f a)) v) a (rw (==_refl a)),
  set_each-All f as' (set_cluster (set_shard_limiter a (f a)) v),
)

replay_hystrix :
    (v : Cluster) (es : List Effect) (ks : List Call)
    → replay set_cluster v (map hystrix es ++ ks) ≡ replay set_cluster v ks
unfolding replay set_cluster
replay_hystrix v [] ks = refl
replay_hystrix v (e ∷ es) ks = replay_hystrix v es ks

replay-install :
    (cb_options : List CbSetter) (h : Hystrix) (as' : List Str) (v : Cluster)
    → replay set_cluster v (install_limiters cb_options h as')
      ≡ set_each (λ a. some (new_limiter (generate_cb_key a) cb_options)) as' v
unfolding replay install_limiters set_each
replay-install cb_options h [] v = refl
replay-install cb_options h (a ∷ as') v =
    replay_hystrix v (reconfigure_hystrix (generate_cb_key a) h) (
      set_shard_limiter a (some (new_limiter (generate_cb_key a) cb_options))
      ∷ install_limiters cb_options h as')
    ∙ replay-install cb_options h as' _

replay-remove :
    (as' : List Str) (v : Cluster)
    → replay set_cluster v (remove_limiters as') ≡ set_each (λ a. none) as' v
unfolding replay remove_limiters set_each
replay-remove [] v = refl
replay-remove (a ∷ as') v = replay-remove as' (set_cluster (set_shard_limiter a none) v)

-- What the view is after either loop.
pub record Installed (f : Str → Option Limiter) (as' : List Str) (v v' : Cluster) : Type 0 where
  pub same_options : v'.options ≡ v.options
  pub each : All (λ a. v'.limiters a ≡ f a) as'

set_each-Installed :
    (f : Str → Option Limiter) (as' : List Str) (v : Cluster) → Installed f as' v (set_each f as' v)
set_each-Installed f as' v = record {
  same_options = options-set_each f as' v;
  each = set_each-All f as' v;
}

pub install-Installed :
    (cb_options : List CbSetter) (h : Hystrix) (as' : List Str) (v : Cluster)
    → Installed
        (λ a. some (new_limiter (generate_cb_key a) cb_options))
        as'
        v
        (replay set_cluster v (install_limiters cb_options h as'))
install-Installed cb_options h as' v =
    rw (replay-install cb_options h as' v) (set_each-Installed _ as' v)

pub remove-Installed :
    (as' : List Str) (v : Cluster)
    → Installed (λ a. none) as' v (replay set_cluster v (remove_limiters as'))
remove-Installed as' v = rw (replay-remove as' v) (set_each-Installed _ as' v)
