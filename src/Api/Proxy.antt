-- ===== src/Api/Proxy.antt =====
-- src/servepilot/api/proxy.py: `proxy_generation`, `_send_with_retry` and `cleanup`. A backend's
-- answers are given by a `Network`; whatever other tasks do to the router while the request waits
-- is a function on worlds, and the leases of a world are theirs: the request keeps its own lease.
-- The awaits of one attempt are taken together. Bodies and headers are passed through and left out.
pub mod Accounting
pub mod Retry
use open_baseten_inference.Prelude.{
  ℕ, zero, suc, ◌+◌, ◌-◌, ◌/◌, String, Bool, true, false, Option, none, some, List, [], ◌∷◌, ◌++◌,
  ltb, if◌then◌else◌,
}
use open_baseten_inference.Runtime.Router.{
  ReplicaRouter, RouteLease, RouteError, Result, ok, err, no_healthy_replica, overloaded,
  value_error, reroute, release, Begin, rejected, suspended, passed, acquire_begin, acquire_finish,
  acquire_resume, acquire_cancel,
}
use open_baseten_inference.Runtime.Router.World.{World}
use open_baseten_inference.Runtime.Semaphore.{Semaphore}

-- what a send comes to: an `httpx.HTTPError`, a response, or a client that has gone
pub data Reply : Type 0 where
  http_error : String → Reply
  response : ℕ → Reply
  disconnected : Reply

-- what streaming the body comes to
pub data Streaming : Type 0 where
  complete : Streaming
  backend_dropped : String → Streaming
  client_left : Streaming

-- `answer left url` is the reply to the attempt that has `left` retries after it; `describe` is the
-- text of a failing status.
pub record Network : Type 0 where
  pub answer : ℕ → String → Reply
  pub describe : ℕ → String
  pub streaming : Streaming

-- one attempt: a usable response, an error before any body, or a cancellation
pub data Attempt : Type 0 where
  accepted : ℕ → Attempt
  broken : String → Attempt
  aborted : Attempt

abbrev pub verdict : Network → Reply → Attempt
verdict net (http_error error) = broken error
verdict net (response status) =
    if ltb status 500 then accepted status else broken (net.describe status)
verdict net disconnected = aborted

-- what `_send_with_retry` returns; `cancelled` is the `CancelledError` that leaves it
pub data Sent : Type 0 where
  answered : ℕ → Sent
  unreachable : String → Sent
  cancelled : Sent

-- the last attempt
abbrev pub settle : Attempt → Sent
settle (accepted status) = answered status
settle (broken error) = unreachable error
settle aborted = cancelled

-- what `reroute` comes to: the error of the attempt, or the next attempt
abbrev pub rerouted :
    (RouteLease → World → Sent × RouteLease × World)
    → String
    → List RouteLease
    → Result ℕ × RouteLease × ReplicaRouter
    → Sent × RouteLease × World
rerouted again error ls (err e, lease, s) =
    (unreachable error, lease, record { router = s; leases = ls })
rerouted again error ls (ok ref, lease, s) = again lease (record { router = s; leases = ls })

abbrev pub after :
    (RouteLease → World → Sent × RouteLease × World)
    → Attempt
    → RouteLease
    → World
    → Sent × RouteLease × World
after again (accepted status) lease w = (answered status, lease, w)
after again aborted lease w = (cancelled, lease, w)
after again (broken error) lease w =
    rerouted again error w.leases (reroute lease (some error) w.router)

-- the reply to an attempt on the leased replica
abbrev pub attempt : Network → ℕ → RouteLease → World → Attempt
attempt net left lease w = verdict net (net.answer left (w.router.heap lease.replica).base_url)

-- `_send_with_retry` with `left` retries left: the source allows one
unfoldable pub send_with_retry :
    Network → (ℕ → World → World) → ℕ → RouteLease → World → Sent × RouteLease × World
send_with_retry net during zero lease w = (settle (attempt net 0 lease w), lease, during 0 w)
send_with_retry net during (suc left) lease w =
    after (send_with_retry net during left) (attempt net (suc left) lease w) lease
      (during (suc left) w)

pub data Reason : Type 0 where
  overload : Reason
  no_replica : Reason
  backend_unreachable : Reason
  backend_disconnect : Reason

-- the counters of api/metrics.py that a request moves; `requests_total` has the status classes
pub record Metrics : Type 0 where
  pub requests_inflight : ℕ
  pub requests_total : List ℕ
  pub request_errors_total : List Reason
  pub observed : ℕ

abbrev count_error : Reason → Metrics → Metrics
count_error reason m = record m {
  requests_total = 5 ∷ m.requests_total;
  request_errors_total = reason ∷ m.request_errors_total;
}

-- `status // 100`
unfoldable pub status_class : ℕ → ℕ
status_class status = status / 100

-- what the client gets: an error response, a stream that names its replica, or an exception
pub data Response : Type 0 where
  error_response : ℕ → Reason → Response
  stream : ℕ → String → Response
  raised : Response

-- what `acquire` comes to; `none` is a client that left while it waited
abbrev pub Acquired : Type 0
Acquired = Option (Result RouteLease)

-- `cleanup`: the lease is released, if there is one, and the request is no longer in flight
abbrev pub is_some : Option String → Bool
is_some none = false
is_some (some e) = true

unfoldable pub cleanup : Option RouteLease → Option String → World → Metrics → World × Metrics
cleanup none error w m =
    (w, record m { requests_inflight = m.requests_inflight - 1; observed = m.observed + 1 })
cleanup (some lease) error w m = (
  record w { router = release lease (is_some error) error w.router },
  record m { requests_inflight = m.requests_inflight - 1; observed = m.observed + 1 },
)

-- the stream's error, and what it counts
abbrev stream_error : Streaming → Option String
stream_error (backend_dropped error) = some error
stream_error _ = none

abbrev pub stream_metrics : Streaming → Metrics → Metrics
stream_metrics (backend_dropped error) m = record m {
  request_errors_total = backend_disconnect ∷ m.request_errors_total;
}
stream_metrics _ m = m

-- from the return of `_send_with_retry` to the end of the request
abbrev pub conclude :
    Network → (World → World) → Metrics → Sent × RouteLease × World → Response × (World × Metrics)
conclude net during m (answered status, lease, w) =
    let id = (w.router.heap lease.replica).id in
    let m' = record m { requests_total = status_class status ∷ m.requests_total } in
    (
      stream status id,
      cleanup (some lease) (stream_error net.streaming) (during w)
          (stream_metrics net.streaming m'),
    )
conclude net during m (unreachable error, lease, w) = (
  error_response 502 backend_unreachable,
  cleanup (some lease) (some error) w (count_error backend_unreachable m),
)
conclude net during m (cancelled, lease, w) = (raised, cleanup (some lease) none w m)

-- the branches on what `acquire` comes to
abbrev pub with_lease :
    Network → (ℕ → World → World) → Metrics → World → Acquired → Response × (World × Metrics)
with_lease net during m w none = (raised, cleanup none none w m)
with_lease net during m w (some (err (overloaded n))) =
    (error_response 503 overload, cleanup none none w (count_error overload m))
with_lease net during m w (some (err no_healthy_replica)) =
    (error_response 503 no_replica, cleanup none none w (count_error no_replica m))
with_lease net during m w (some (err value_error)) = (raised, cleanup none none w m)
with_lease net during m w (some (ok lease)) =
    conclude net (during 2) m (send_with_retry net during 1 lease w)

-- `acquire` and its wait: the position of the request's future in the queue when it runs again, and
-- whether its client left instead (and then whether the future was done)
pub record Wait : Type 0 where
  pub place : World → ℕ
  pub leaves : World → Option Bool

abbrev pub got : List RouteLease → Result RouteLease × ReplicaRouter → Acquired × World
got ls (r, s) = (some r, record { router = s; leases = ls })

abbrev pub woken : Wait → World → Semaphore → Option Bool → Acquired × World
woken wait w sem none = got w.leases (acquire_resume (wait.place w) sem w.router)
woken wait w sem (some done) =
    (none, record w { router = acquire_cancel (wait.place w) done sem w.router })

-- Without a semaphore nothing waits.
abbrev pub awaited : Wait → World → Option Semaphore → Acquired × World
awaited wait w none = (none, w)
awaited wait w (some sem) = woken wait w sem (wait.leaves w)

abbrev pub entered :
    Wait → (World → World) → List RouteLease → Begin × ReplicaRouter → Acquired × World
entered wait during ls (rejected n, s) =
    (some (err (overloaded n)), record { router = s; leases = ls })
entered wait during ls (passed, s) = got ls (acquire_finish s)
entered wait during ls (suspended, s) =
    let w = during (record { router = s; leases = ls }) in awaited wait w w.router.semaphore

unfoldable pub acquire : Wait → (World → World) → World → Acquired × World
acquire wait during w = entered wait during w.leases (acquire_begin w.router)

-- `proxy_generation`; other tasks run while it waits for a permit (3), for the two attempts (1, 0)
-- and while it streams (2)
unfoldable pub proxy_generation :
    Network → Wait → (ℕ → World → World) → World → Metrics → Response × (World × Metrics)
unfolding cleanup send_with_retry status_class acquire
proxy_generation net wait during w m =
    let m' = record m { requests_inflight = m.requests_inflight + 1 } in
    let (a, w') = acquire wait (during 3) w in with_lease net during m' w' a
