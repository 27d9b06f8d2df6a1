-- ===== src/Webhook/Dispatcher/InOrder.antt =====
-- What the workers receive of the events, whatever the order of the calls.
use mathlib.Core.Path.{ap, sym, ◌∙◌, refl}
use mathlib.Core.List.{append_assoc}
use mathlib.Core.Option.{some-injective}
use cloodsy_s.Prelude.{
  ◌≤◌, ◌<◌, ltb, ltb→lt, ℕ, ◌⊎◌, true, false, ◌≡◌, inl, inr, Bool-cases, Bool, if◌then◌else◌, none,
  some, List, [], ◌∷◌, ◌++◌, length-append, length, arith,
}
use cloodsy_s.Webhook.Dispatcher.{
  Event, Dispatcher, queue_capacity, new_dispatcher, emit, try_send, stop, receive, taken,
}

-- The events of the calls of Emit, and those that the workers have taken from the channel, in order.
pub data Reach : List Event → List Event → Dispatcher → Type 0 where
  start : Reach [] [] new_dispatcher
  emitted :
      {es rs : List Event} {d d' : Dispatcher} (e : Event)
      → Reach es rs d
      → emit e d ≡ some d'
      → Reach (es ++ e ∷ []) rs d'
  received :
      {es rs : List Event} {d d' : Dispatcher} (e : Event)
      → Reach es rs d
      → receive d ≡ some (e, d')
      → Reach es (rs ++ e ∷ []) d'
  stopped :
      {es rs : List Event} {d d' : Dispatcher} → Reach es rs d → stop d ≡ some d' → Reach es rs d'

pub data Sublist : List Event → List Event → Type 0 where
  done : Sublist [] []
  keep : {xs ys : List Event} (e : Event) → Sublist xs ys → Sublist (e ∷ xs) (e ∷ ys)
  drop : {xs ys : List Event} (e : Event) → Sublist xs ys → Sublist xs (e ∷ ys)

Sublist-keep_last :
    {xs ys : List Event} (e : Event) → Sublist xs ys → Sublist (xs ++ e ∷ []) (ys ++ e ∷ [])
Sublist-keep_last e done = keep e done
Sublist-keep_last e (keep x s) = keep x (Sublist-keep_last e s)
Sublist-keep_last e (drop x s) = drop x (Sublist-keep_last e s)

Sublist-drop_last : {xs ys : List Event} (e : Event) → Sublist xs ys → Sublist xs (ys ++ e ∷ [])
Sublist-drop_last e done = drop e done
Sublist-drop_last e (keep x s) = keep x (Sublist-drop_last e s)
Sublist-drop_last e (drop x s) = drop x (Sublist-drop_last e s)

pub record IsInOrder (es rs : List Event) (d : Dispatcher) : Type 0 where
  pub in_order : Sublist (rs ++ d.queue) es
  pub bounded : length d.queue ≤ queue_capacity
  pub agree : d.channel_closed ≡ d.closed

-- What the next calls do: neither panics; Emit queues the event behind the others unless Stop was called
-- or the queue is full, and then drops it; Stop closes the dispatcher and leaves the queue.
pub record IsServing (d : Dispatcher) : Type 0 where
  pub emits :
      (e : Event)
      → ((d.closed ≡ true) × (emit e d ≡ some d))
        ⊎ ((length d.queue ≡ queue_capacity) × (emit e d ≡ some d))
        ⊎ ((d.closed ≡ false)
            × (length d.queue < queue_capacity)
            × (emit e d ≡ some (record d { queue = d.queue ++ e ∷ [] })))
  pub stops : (d' : Dispatcher) × (stop d ≡ some d') × (d'.queue ≡ d.queue) × (d'.closed ≡ true)

on : {A : Type 0} (test : Bool) (x y z : A) → test ≡ true → (if test then x else y) ≡ z → x ≡ z
on test x y z e h = rw e at h

off : {A : Type 0} (test : Bool) (x y z : A) → test ≡ false → (if test then x else y) ≡ z → y ≡ z
off test x y z e h = rw e at h

try_send-IsInOrder :
    (e : Event) (es rs : List Event) (d d' : Dispatcher)
    → IsInOrder es rs d
    → try_send e d ≡ some d'
    → IsInOrder (es ++ e ∷ []) rs d'
try_send-IsInOrder e es rs d d' w h =
    let dropped : IsInOrder (es ++ e ∷ []) rs d = record {
      in_order = Sublist-drop_last e w.in_order;
      bounded = w.bounded;
      agree = w.agree;
    } in
    elim (Bool-cases d.channel_closed) [
      | inl shut ↦ let no : none ≡ some d' = rw shut at h in cc
      | inr opened ↦ elim (Bool-cases (ltb (length d.queue) queue_capacity)) [
        | inr full ↦
            let it : d ≡ d' = off _ _ _ _ full (some-injective _ _ (off _ _ _ _ opened h)) in
            rw (← it) dropped
        | inl room ↦
            let it : record d { queue = d.queue ++ e ∷ [] } ≡ d' =
              on _ _ _ _ room (some-injective _ _ (off _ _ _ _ opened h)) in
            rw (← it) (record {
              in_order = rw (← append_assoc rs d.queue (e ∷ [])) (Sublist-keep_last e w.in_order);
              bounded = ground (arith, length-append d.queue (e ∷ []));
              agree = w.agree;
            })
      ]
    ]

emit-IsInOrder :
    (e : Event) (es rs : List Event) (d d' : Dispatcher)
    → IsInOrder es rs d
    → emit e d ≡ some d'
    → IsInOrder (es ++ e ∷ []) rs d'
unfolding emit
emit-IsInOrder e es rs d d' w h = elim (Bool-cases d.closed) [
  | inl shut ↦
      let it : d ≡ d' = some-injective _ _ (simp shut at h) in
      rw (← it)
        (record { in_order = Sublist-drop_last e w.in_order; bounded = w.bounded; agree = w.agree })
  | inr opened ↦ try_send-IsInOrder e es rs d d' w (off d.closed _ _ _ opened h)
]

stop-serves :
    (d : Dispatcher)
    → d.channel_closed ≡ d.closed
    → (d' : Dispatcher) × (stop d ≡ some d')
      × (d'.queue ≡ d.queue)
      × (d'.closed ≡ true)
      × (d'.channel_closed ≡ true)
unfolding stop
stop-serves d a = elim (Bool-cases d.closed) [
  | inl shut ↦ (d, simp shut refl, refl, shut, a ∙ shut)
  | inr opened ↦ (
    record d { closed = true; channel_closed = true },
    simp (opened, a ∙ opened) refl,
    refl,
    refl,
    refl,
  )
]

stop-IsInOrder :
    (es rs : List Event) (d d' : Dispatcher)
    → IsInOrder es rs d
    → stop d ≡ some d'
    → IsInOrder es rs d'
stop-IsInOrder es rs d d' w h =
    let (s, run, same, shut, shut') = stop-serves d w.agree in
    let it : s ≡ d' = some-injective _ _ (sym run ∙ h) in
    rw (← it) (record {
      in_order = rw same w.in_order;
      bounded = rw same w.bounded;
      agree = shut' ∙ sym shut;
    })

le_both : (a b : ℕ) → a ≤ b → ltb a b ≡ false → a ≡ b
le_both a b h k = ground arith

IsInOrder-serves : (es rs : List Event) (d : Dispatcher) → IsInOrder es rs d → IsServing d
unfolding emit
IsInOrder-serves es rs d w = record {
  emits = λ e. elim (Bool-cases d.closed) [
    | inl shut ↦ inl (shut, simp shut refl)
    | inr opened ↦ elim (Bool-cases (ltb (length d.queue) queue_capacity)) [
      | inl room ↦ inr (inr (opened, ltb→lt _ _ room, simp (opened, w.agree ∙ opened, room) refl))
      | inr full ↦ inr (
          inl (
            le_both (length d.queue) queue_capacity w.bounded full,
            simp (opened, w.agree ∙ opened, full) refl,
          ))
    ]
  ];
  stops = let (s, run, same, shut, _) = stop-serves d w.agree in (s, run, same, shut);
}

taken-IsInOrder :
    (e : Event) (es rs q : List Event) (d d' : Dispatcher)
    → Sublist (rs ++ q) es
    → length q ≤ queue_capacity
    → d.channel_closed ≡ d.closed
    → taken q d ≡ some (e, d')
    → IsInOrder es (rs ++ e ∷ []) d'
taken-IsInOrder e es rs [] d d' s b a h = cc
taken-IsInOrder e es rs (x ∷ q) d d' s b a h =
    let it = some-injective _ _ h in
    let first : x ≡ e = ap (λ p. p.0) it in
    let rest : record d { queue = q } ≡ d' = ap (λ p. p.1) it in
    rw (← rest, ← first)
      (record { in_order = rw (append_assoc rs (x ∷ []) q) s; bounded = omega arith; agree = a })

Reach-IsInOrder : {es rs : List Event} {d : Dispatcher} → Reach es rs d → IsInOrder es rs d
unfolding receive
Reach-IsInOrder start = record { in_order = done; bounded = omega arith; agree = refl }
Reach-IsInOrder (emitted {es = es} {rs = rs} {d = d} {d' = d'} e r h) =
    emit-IsInOrder e es rs d d' (Reach-IsInOrder r) h
Reach-IsInOrder (received {es = es} {rs = rs} {d = d} {d' = d'} e r h) =
    let w = Reach-IsInOrder r in taken-IsInOrder e es rs d.queue d d' w.in_order w.bounded w.agree h
Reach-IsInOrder (stopped {es = es} {rs = rs} {d = d} {d' = d'} r h) =
    stop-IsInOrder es rs d d' (Reach-IsInOrder r) h

-- Whatever the calls of Emit and Stop and the receptions of the workers, and in whatever order they
-- come, the events that the workers have received, followed by those in the queue, are some of the
-- emitted ones, in the order of their emission and each at most once, and the queue holds at most 1000;
-- the next Emit does not panic, and puts its event at the end of the queue if Stop was not called and
-- the queue is not full, and else changes nothing; and Stop, also a second one, does not panic, leaves
-- the queue to the workers and ends the acceptance of events.
pub Reach-serves :
    {es rs : List Event} {d : Dispatcher} → Reach es rs d → IsInOrder es rs d × IsServing d
Reach-serves {es = es} {rs = rs} {d = d} r =
    let w = Reach-IsInOrder r in (w, IsInOrder-serves es rs d w)
