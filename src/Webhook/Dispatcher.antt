-- ===== src/Webhook/Dispatcher.antt =====
-- webhook/dispatcher.go: the queue of events, with the panics of a closed channel, and the attempts of a delivery. The answer of the
-- destination to each attempt is a parameter: none for an error of the client, else the status.
pub mod InOrder
use cloodsy_s.Prelude.{
  ℕ, zero, suc, ◌+◌, ◌-◌, ◌*◌, ltb, Bool, true, false, ◌&&◌, Option, none, some, List, [], ◌∷◌,
  ◌++◌, length, Bytes, if◌then◌else◌,
}

pub record Event : Type 0 where
  pub bucket_name : Bytes
  pub event_type : Bytes
  pub key : Bytes
  pub size : ℕ
  pub etag : Bytes
  pub version_id : Bytes
  pub timestamp : ℕ

abbrev pub queue_capacity : ℕ
queue_capacity = 1000

-- The flag, and the channel: the events in it, and whether it is closed.
pub record Dispatcher : Type 0 where
  pub queue : List Event
  pub channel_closed : Bool
  pub closed : Bool

abbrev pub new_dispatcher : Dispatcher
new_dispatcher = record { queue = []; channel_closed = false; closed = false }

-- Go's `select` with a send and a default, and its `close`; `none` is the panic on a closed channel.
abbrev pub try_send : Event → Dispatcher → Option Dispatcher
try_send e d =
    if d.channel_closed
    then none
    else some
        (if ltb (length d.queue) queue_capacity then record d { queue = d.queue ++ e ∷ [] } else d)

abbrev pub close_channel : Dispatcher → Option Dispatcher
close_channel d = if d.channel_closed then none else some (record d { channel_closed = true })

unfoldable pub emit : Event → Dispatcher → Option Dispatcher
emit e d = if d.closed then some d else try_send e d

unfoldable pub stop : Dispatcher → Option Dispatcher
stop d = if d.closed then some d else close_channel (record d { closed = true })

-- What a worker gets of the channel; none while it is empty.
abbrev pub taken : List Event → Dispatcher → Option (Event × Dispatcher)
taken [] d = none
taken (e ∷ q) d = some (e, record d { queue = q })

unfoldable pub receive : Dispatcher → Option (Event × Dispatcher)
receive d = taken d.queue d

pub data Action : Type 0 where
  sleep : ℕ → Action
  post : ℕ → Action

abbrev pub is_success : Option ℕ → Bool
is_success none = false
is_success (some status) = ltb 199 status && ltb status 300

abbrev pub pause : ℕ → ℕ → List Action
pause zero backoff = []
pause (suc n) backoff = sleep backoff ∷ []

abbrev pub next_backoff : ℕ → ℕ → ℕ
next_backoff zero backoff = backoff
next_backoff (suc n) backoff = backoff * 2

-- The attempts that are left, from the number of the next one and the delay before it, with whether
-- the event was delivered.
unfoldable pub deliver_loop : (ℕ → Option ℕ) → ℕ → ℕ → ℕ → List Action × Bool
deliver_loop answer zero attempt backoff = ([], false)
deliver_loop answer (suc left) attempt backoff =
    let rest = deliver_loop answer left (suc attempt) (next_backoff attempt backoff) in
    if is_success (answer attempt)
    then (pause attempt backoff ++ post attempt ∷ [], true)
    else (pause attempt backoff ++ post attempt ∷ rest.0, rest.1)

unfoldable pub deliver : (ℕ → Option ℕ) → List Action × Bool
deliver answer = deliver_loop answer 3 0 1000000000
