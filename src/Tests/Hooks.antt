-- ===== src/Tests/Hooks.antt =====
-- Deliveries of webhooks, and the theorem on the queue of events applied to a run.
use cloodsy_s.Prelude.{◌≡◌, refl, true, false, none, some, [], ◌∷◌, codes}
use cloodsy_s.Webhook.Dispatcher.{
  Event, Dispatcher, emit, stop, receive, deliver, deliver_loop, sleep, post,
}
use cloodsy_s.Webhook.Dispatcher.InOrder.{
  Reach, start, emitted, received, stopped, IsInOrder, IsServing, Reach-serves,
}

abbrev put_event : Event
put_event = record {
  bucket_name = codes "photos";
  event_type = codes "s3:ObjectCreated:Put";
  key = codes "a";
  size = 3;
  etag = codes "e";
  version_id = [];
  timestamp = 7;
}

abbrev delete_event : Event
delete_event = record put_event { event_type = codes "s3:ObjectRemoved:Delete"; timestamp = 8 }

abbrev waiting : Dispatcher
waiting = record { queue = put_event ∷ delete_event ∷ []; channel_closed = false; closed = false }

abbrev one_waiting : Dispatcher
one_waiting = record { queue = put_event ∷ []; channel_closed = false; closed = false }

emit-order : emit delete_event one_waiting ≡ some waiting
unfolding emit
emit-order = refl

abbrev stopped_one : Dispatcher
stopped_one = record waiting { channel_closed = true; closed = true }

abbrev draining : Dispatcher
draining = record { queue = delete_event ∷ []; channel_closed = true; closed = true }

drained : receive stopped_one ≡ some (put_event, draining)
unfolding receive
drained = refl

-- Three failures: the delays are 1 s and 2 s.
deliver-fails :
    deliver (λ n. none)
    ≡ (post 0 ∷ sleep 1000000000 ∷ post 1 ∷ sleep 2000000000 ∷ post 2 ∷ [], false)
unfolding deliver deliver_loop
deliver-fails = refl

deliver-at_once : deliver (λ n. some 204) ≡ (post 0 ∷ [], true)
unfolding deliver deliver_loop
deliver-at_once = refl

run : Reach (put_event ∷ delete_event ∷ []) (put_event ∷ []) draining
unfolding emit stop receive
run =
    received put_event
      (stopped {d' = stopped_one}
        (emitted {d' = waiting} delete_event (emitted {d' = one_waiting} put_event start refl) refl)
        refl)
      refl

Reach-serves_example :
    IsInOrder (put_event ∷ delete_event ∷ []) (put_event ∷ []) draining × IsServing draining
Reach-serves_example = Reach-serves run
