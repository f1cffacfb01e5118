-- ===== src/Client/Shutdown/Ends.antt =====
-- `ShutDown` of client.go, called once.
use grab_redis.Base.{
  ℕ, zero, suc, ◌+◌, ◌≤◌, ◌<◌, ◌≡◌, refl, ap, sym, subst, Bool, true, false, arith, if◌then◌else◌,
}
use grab_redis.Client.Shutdown.{
  Life, new_life, shut_down, Step, close_chan, close_again, return_closed, return_done,
  stop_monitor, Steps, none_left, one_more,
}

-- What is left to do.
abbrev left : Life → ℕ
left s = s.closers + s.callers + (if s.monitored then 1 else 0)

Step-left : {s t : Life} → Step s t → left t < left s
Step-left (close_chan m n b) = omega arith
Step-left (close_again m n b) = omega arith
Step-left (return_closed m n b) = omega arith
Step-left (return_done m n c b) = omega arith
Step-left (stop_monitor m n) = omega arith

Steps-left : (k : ℕ) {s t : Life} → Steps k s t → k + left t ≤ left s
Steps-left k none_left = omega arith
Steps-left k (one_more p q) = let h = Step-left p in let h' = Steps-left _ q in omega arith

-- One goroutine closes the channel, and the channel is open until it does.
abbrev IsOnce : Life → Type 0
IsOnce s = (s.crashed ≡ false) × (s.closers + (if s.closed then 1 else 0) ≡ 1)

one_closes : (m : ℕ) → ¬ (suc m + 1 ≡ 1)
one_closes m h = omega arith

Step-IsOnce : {s t : Life} → Step s t → IsOnce s → IsOnce t
Step-IsOnce (close_chan m n b) (h, h') = (refl, omega arith)
Step-IsOnce (close_again m n b) (h, h') = absurd (one_closes m h')
Step-IsOnce (return_closed m n b) (h, h') = (refl, h')
Step-IsOnce (return_done m n c b) (h, h') = (refl, h')
Step-IsOnce (stop_monitor m n) (h, h') = (refl, h')

Steps-IsOnce : {k : ℕ} {s t : Life} → Steps k s t → IsOnce s → IsOnce t
Steps-IsOnce none_left h = h
Steps-IsOnce (one_more p q) h = Steps-IsOnce q (Step-IsOnce p h)

-- Nothing more can happen.
abbrev pub IsOver : Life → Type 0
IsOver s = (t : Life) → ¬ Step s t

abbrev life : ℕ → ℕ → Bool → Bool → Bool → Life
life m n c b x = record { closers = m; callers = n; closed = c; monitored = b; crashed = x }

IsOver-left :
    (m n : ℕ) (c b x : Bool)
    → IsOnce (life m n c b x)
    → IsOver (life m n c b x)
    → left (life m n c b x) ≡ 0
IsOver-left m n c b true (h, h') over = absurd (cc)
IsOver-left m (suc n) c b false h over = absurd (over _ (return_done m n c b))
IsOver-left (suc m) zero false b false h over = absurd (over _ (close_chan m 0 b))
IsOver-left (suc m) zero true b false (h, h') over = absurd (one_closes m h')
IsOver-left zero zero false b false (h, h') over = omega arith
IsOver-left zero zero true true false h over = absurd (over _ (stop_monitor 0 0))
IsOver-left zero zero true false false h over = refl

-- A single `ShutDown` of a new client takes at most three steps, in whatever order the goroutines
-- run, and none of them is a panic; when no step is left, the call has returned, `closeChan` is
-- closed, and `monitorPool` has returned.
pub shut_down-Ends :
    (k : ℕ) (s : Life)
    → Steps k (shut_down new_life) s
    → (k ≤ 3)
      × (s.crashed ≡ false)
      × (IsOver s → (s.callers ≡ 0) × (s.closed ≡ true) × (s.monitored ≡ false))
unfolding new_life shut_down
shut_down-Ends k s p =
    let bound = Steps-left k p in
    let once = Steps-IsOnce p (refl, refl) in
    (
      omega arith,
      once.0,
      λ over.
          all_done s once
            (IsOver-left s.closers s.callers s.closed s.monitored s.crashed once over),
    )
  where
    all_done :
        (s : Life)
        → IsOnce s
        → left s ≡ 0
        → (s.callers ≡ 0) × (s.closed ≡ true) × (s.monitored ≡ false)
    all_done s h e = ground arith

-- So many calls of `ShutDown` on one client.
pub calls : ℕ → Life
calls zero = new_life
calls (suc n) = shut_down (calls n)

calls-life : (n : ℕ) → calls n ≡ life n n false true false
unfolding calls new_life shut_down
calls-life zero = refl
calls-life (suc n) = ap shut_down (calls-life n)

-- From two calls of `ShutDown` on one client on, the goroutines can run so that `closeChan` is closed
-- a second time, which is a panic.
pub shut_down-crashes :
    (n : ℕ) → (k : ℕ) × (s : Life) × Steps k (calls (suc (suc n))) s × (s.crashed ≡ true)
shut_down-crashes n = (
  2,
  life n (suc (suc n)) true true true,
  subst (λ s. Steps 2 s (life n (suc (suc n)) true true true)) (sym (calls-life (suc (suc n))))
      (one_more (close_chan (suc n) _ true) (one_more (close_again n _ true) none_left)),
  refl,
)
