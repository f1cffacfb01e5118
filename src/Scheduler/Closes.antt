-- ===== src/Scheduler/Closes.antt =====
-- The end of scheduler.go: from wherever the scheduler is, a cancellation lets it come to its end.
use grab_redis.Base.{ℕ, zero, suc, ◌≡◌, refl, true, Bool-cases, inl, inr, arith, ltb}
use grab_redis.Scheduler.{
  Scheduler, new_scheduler, Step, spawn, stop, begin, leave, gone, cancel, close, Reach, here, next,
}
use grab_redis.Scheduler.Counts.{Inv, Step-Inv, scheduler-Inv}

Reach-trans : {s t u : Scheduler} → Reach s t → Reach t u → Reach s u
Reach-trans r here = r
Reach-trans r (next q st) = next (Reach-trans r q) st

-- A cancelled scheduler can get to a state with the property.
CanGet : (Scheduler → Type 0) → Scheduler → Type 0
CanGet P s = (t : Scheduler) × Reach s t × Inv t × (t.cancelled ≡ true) × P t

-- One step, and then the rest.
step_to : (P : Scheduler → Type 0) {s t : Scheduler} → Step s t → CanGet P t → CanGet P s
unfolding CanGet
step_to P st (u, r, i, c, p) = (u, Reach-trans (next here st) r, i, c, p)

then_to :
    (P Q : Scheduler → Type 0) (s : Scheduler)
    → CanGet P s
    → ((t : Scheduler) → Inv t → t.cancelled ≡ true → P t → CanGet Q t)
    → CanGet Q s
unfolding CanGet
then_to P Q s (t, r, i, c, p) k =
    let (u, r', i', c', q) = k t i c p in (u, Reach-trans r r', i', c', q)

abbrev NoBudget : Scheduler → Type 0
NoBudget s = s.budget ≡ 0

abbrev NoneSpawned : Scheduler → Type 0
NoneSpawned s = NoBudget s × (s.spawned ≡ 0)

abbrev NoneActive : Scheduler → Type 0
NoneActive s = NoneSpawned s × (s.active ≡ 0)

abbrev pub IsEmpty : Scheduler → Type 0
IsEmpty s = NoneActive s × (s.leaving ≡ 0)

to_no_budget :
    (b : ℕ) (s : Scheduler) → s.budget ≡ b → Inv s → s.cancelled ≡ true → CanGet NoBudget s
unfolding CanGet
to_no_budget zero s e i c = (s, here, i, c, e)
to_no_budget (suc b) s e i c = elim (Bool-cases (ltb s.num_worker s.max_worker)) [
  | inl room ↦
      let st = spawn b e (ground arith) in
      step_to NoBudget st (to_no_budget b _ refl (Step-Inv st i) c)
  | inr full ↦ let st = stop (ground arith) in step_to NoBudget st (_, here, Step-Inv st i, c, refl)
]

to_none_spawned :
    (k : ℕ) (s : Scheduler)
    → s.spawned ≡ k
    → NoBudget s
    → Inv s
    → s.cancelled ≡ true
    → CanGet NoneSpawned s
unfolding CanGet
to_none_spawned zero s e q i c = (s, here, i, c, (q, e))
to_none_spawned (suc k) s e q i c =
    let st = begin k e in step_to NoneSpawned st (to_none_spawned k _ refl q (Step-Inv st i) c)

to_none_active :
    (k : ℕ) (s : Scheduler)
    → s.active ≡ k
    → NoneSpawned s
    → Inv s
    → s.cancelled ≡ true
    → CanGet NoneActive s
unfolding CanGet
to_none_active zero s e q i c = (s, here, i, c, (q, e))
to_none_active (suc k) s e q i c =
    let w = i.waits in
    let st = leave k k e (ground arith) in
    step_to NoneActive st (to_none_active k _ refl q (Step-Inv st i) c)

to_empty :
    (k : ℕ) (s : Scheduler)
    → s.leaving ≡ k
    → NoneActive s
    → Inv s
    → s.cancelled ≡ true
    → CanGet IsEmpty s
unfolding CanGet
to_empty zero s e q i c = (s, here, i, c, (q, e))
to_empty (suc k) s e q i c =
    let n = i.counted in
    let st = gone k k e (ground arith) in step_to IsEmpty st (to_empty k _ refl q (Step-Inv st i) c)

-- From every state that a scheduler can be in, its goroutines can run, after a cancellation, so that
-- the channel is closed, no worker is left, and both counters are zero.
pub scheduler_closes :
    (chan_size max_worker : ℕ) (s : Scheduler)
    → Reach (new_scheduler chan_size max_worker) s
    → (t : Scheduler) × Reach s t × (t.closed ≡ true) × IsEmpty t × (t.wg ≡ 0) × (t.num_worker ≡ 0)
unfolding CanGet
scheduler_closes chan_size max_worker s r =
    let i = scheduler-Inv chan_size max_worker s r in
    let cancelled : CanGet NoBudget s =
      step_to NoBudget cancel (to_no_budget s.budget _ refl (Step-Inv cancel i) refl) in
    let begun =
      then_to NoBudget NoneSpawned s cancelled
        (λ t i c q. to_none_spawned t.spawned t refl q i c) in
    let left =
      then_to NoneSpawned NoneActive s begun (λ t i c q. to_none_active t.active t refl q i c) in
    let (t, r', i', c, e) =
      then_to NoneActive IsEmpty s left (λ t i c q. to_empty t.leaving t refl q i c) in
    let w = i'.waits in
    let n = i'.counted in
    let counts : (t.wg ≡ 0) × (t.num_worker ≡ 0) = (ground arith, ground arith) in
    elim (Bool-cases t.closed) [
      | inl shut ↦ (t, r', shut, e, counts.0, counts.1)
      | inr open' ↦
          (_, next r' (close open' c (ground arith) counts.0), refl, e, counts.0, counts.1)
    ]
