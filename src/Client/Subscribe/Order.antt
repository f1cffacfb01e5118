-- ===== src/Client/Subscribe/Order.antt =====
-- The messages of a subscription of client.go: none is lost, none is doubled, and their order is kept.
use grab_redis.Base.{
  ℕ, ◌≤◌, ◌≡◌, refl, ap, sym, ◌∙◌, true, Bool-cases, inl, inr, Option, none, some, List, [], ◌∷◌,
  ◌++◌, map, length, length-append, append_assoc, append-nil, subst, some-injective, arith,
}
use grab_redis.Base.Int.{pos}
use grab_redis.Client.Subscribe.{
  Message, SubscribeMessage, message_of, Subscription, subscribe, Step, arrive, close_source, read,
  send, hand_over, receive, finish, Reach, here, next,
}

abbrev pub held_list : Option SubscribeMessage → List SubscribeMessage
held_list none = []
held_list (some m) = m ∷ []

-- What has arrived is what the reader has, what is in the channel, what is held and what is to be read,
-- in this order. The channel keeps its size, and it is closed only when nothing else is to come.
pub record Inv (n : ℕ) (s : Subscription) : Type 0 where
  pub in_order :
      map message_of s.arrived
      ≡ s.received ++ (s.buffer ++ (held_list s.held ++ map message_of s.source))
  pub size : s.cap ≡ n
  pub fits : length s.buffer ≤ n
  pub at_end : s.closed ≡ true → (s.source ≡ []) × (s.held ≡ none) × (s.source_closed ≡ true)

map-append : {A B : Type 0} (f : A → B) (xs ys : List A) → map f (xs ++ ys) ≡ map f xs ++ map f ys
map-append f [] ys = refl
map-append f (x ∷ xs) ys = ap (λ l. f x ∷ l) (map-append f xs ys)

Step-Inv : (n : ℕ) {s t : Subscription} → Step s t → Inv n s → Inv n t
Step-Inv n {s} (arrive msg o) i = record {
  in_order = simp (map-append, i.in_order, append_assoc);
  size = i.size;
  fits = i.fits;
  at_end = λ h. let x = i.at_end h in absurd (cc);
}
Step-Inv n {s} close_source i = record {
  in_order = i.in_order;
  size = i.size;
  fits = i.fits;
  at_end = λ h. let e = i.at_end h in (e.0, e.1, refl);
}
Step-Inv n {s} (read msg rest e q) i = record {
  in_order = i.in_order ∙ rw (e, q) refl;
  size = i.size;
  fits = i.fits;
  at_end = λ h. let x = i.at_end h in absurd (cc);
}
Step-Inv n {s} (send m e room) i = record {
  in_order = i.in_order ∙ rw e (simp append_assoc);
  size = i.size;
  fits = rw (length-append s.buffer (m ∷ [])) (omega (arith, i.size));
  at_end = λ h. let x = i.at_end h in absurd (cc);
}
Step-Inv n {s} (hand_over m e q) i = record {
  in_order = i.in_order ∙ rw (e, q) (simp append_assoc);
  size = i.size;
  fits = i.fits;
  at_end = λ h. let x = i.at_end h in absurd (cc);
}
Step-Inv n {s} (receive m rest q) i = record {
  in_order = i.in_order ∙ rw q (simp append_assoc);
  size = i.size;
  fits = let h = i.fits in omega (arith, ap length q);
  at_end = i.at_end;
}
Step-Inv n {s} (finish c e h o) i = record {
  in_order = i.in_order;
  size = i.size;
  fits = i.fits;
  at_end = λ _. (e, h, c);
}

Reach-Inv : (n : ℕ) {s t : Subscription} → Inv n s → Reach s t → Inv n t
Reach-Inv n i here = i
Reach-Inv n i (next r st) = Step-Inv n st (Reach-Inv n i r)

new-Inv : (n : ℕ) (s : Subscription) → subscribe (pos n) ≡ some s → Inv n s
unfolding subscribe
new-Inv n s h =
    subst (Inv n) (some-injective _ s h)
      (record { in_order = refl; size = refl; fits = omega arith; at_end = λ e. absurd (cc) })

Reach-trans : {s t u : Subscription} → Reach s t → Reach t u → Reach s u
Reach-trans r here = r
Reach-trans r (next q st) = next (Reach-trans r q) st

step_then : {s t u : Subscription} → Step s t → Reach t u → Reach s u
step_then st r = Reach-trans (next here st) r

-- The reader has all of it, and its channel is closed.
pub record Delivered (s t : Subscription) : Type 0 where
  pub steps : Reach s t
  pub all : t.received ≡ map message_of s.arrived
  pub ended : t.closed ≡ true

-- A state with nothing under way, from which nothing new has arrived.
Drains : Subscription → Type 0
Drains s =
    (t : Subscription) × Reach s t
    × (t.source_closed ≡ true)
    × (t.buffer ≡ [])
    × (t.held ≡ none)
    × (t.source ≡ [])
    × (t.arrived ≡ s.arrived)

step-Drains : {s t : Subscription} → Step s t → t.arrived ≡ s.arrived → Drains t → Drains s
unfolding Drains
step-Drains st same (u, r, c, b, h, e, a) = (u, step_then st r, c, b, h, e, a ∙ same)

drain_source :
    (src : List Message) (s : Subscription)
    → s.source_closed ≡ true
    → s.source ≡ src
    → s.held ≡ none
    → s.buffer ≡ []
    → Drains s
unfolding Drains
drain_source [] s c e h b = (s, here, c, b, h, e, refl)
drain_source (msg ∷ src) s c e h b =
    step-Drains (read msg src h e) refl
      (step-Drains (hand_over (message_of msg) refl b) refl (drain_source src _ c refl refl b))

drain_held :
    (o : Option SubscribeMessage) (s : Subscription)
    → s.source_closed ≡ true
    → s.held ≡ o
    → s.buffer ≡ []
    → Drains s
drain_held none s c h b = drain_source s.source s c refl h b
drain_held (some m) s c h b =
    step-Drains (hand_over m h b) refl (drain_source s.source _ c refl refl b)

drain_buffer :
    (ms : List SubscribeMessage) (s : Subscription)
    → s.source_closed ≡ true
    → s.buffer ≡ ms
    → Drains s
drain_buffer [] s c b = drain_held s.held s c refl b
drain_buffer (m ∷ ms) s c b = step-Drains (receive m ms b) refl (drain_buffer ms _ c refl)

delivered : (n : ℕ) (s : Subscription) → Inv n s → Drains s → (t : Subscription) × Delivered s t
unfolding Drains
delivered n s i (t, r, c, b, h, e, a) =
    let j = Reach-Inv n i r in
    let done : t.received ≡ map message_of s.arrived =
      sym (append-nil t.received)
      ∙ (sym (j.in_order ∙ rw (b, h, e) refl) ∙ ap (λ l. map message_of l) a) in
    elim (Bool-cases t.closed) [
      | inl shut ↦ (t, record { steps = r; all = done; ended = shut })
      | inr open' ↦ (_, record { steps = next r (finish c e h open'); all = done; ended = refl })
    ]

-- In every state that a subscription can be in: the messages that have arrived are those that the
-- reader has, those in the channel, the one held and those to be read, in this order, and converted;
-- the channel keeps within the size that was asked for, and once it is closed there is nothing left
-- to come. If goredis closes its channel, a reader who goes on reading can get every message
-- that arrived, and the end.
pub subscribe-Delivered :
    (n : ℕ) (s t : Subscription)
    → subscribe (pos n) ≡ some s
    → Reach s t
    → Inv n t × ((u : Subscription) × Delivered t u)
subscribe-Delivered n s t e r =
    let i = Reach-Inv n (new-Inv n s e) r in (i, delivered n t i (drained t))
  where
    drained : (t : Subscription) → Drains t
    drained t = step-Drains close_source refl (drain_buffer t.buffer _ refl refl)
