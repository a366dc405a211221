-- ===== src/Api/Proxy/Retry.antt =====
-- api/proxy.py: the retries and the counters.
use open_baseten_inference.Prelude.{
  ℕ, ◌+◌, ◌-◌, ◌/◌, ◌<◌, ◌≡◌, ◌⊎◌, inl, inr, refl, String, none, some, ◌∷◌, arith,
}
use open_baseten_inference.Runtime.Router.{
  ReplicaRouter, RouteLease, Result, no_healthy_replica, overloaded, value_error, ok, err,
}
use open_baseten_inference.Runtime.Router.World.{World}
use open_baseten_inference.Runtime.Router.Choice.{IsEligible}
use open_baseten_inference.Runtime.Router.Limit.{Rerouted, reroute-Rerouted}
use open_baseten_inference.Api.Proxy.{
  Network, Reply, response, http_error, disconnected, Sent, answered, unreachable, cancelled,
  send_with_retry, attempt, after, rerouted, verdict, settle, Attempt, accepted, broken, aborted,
  cleanup, conclude, with_lease, Acquired, Wait, acquire, proxy_generation, Response, stream,
  error_response, raised, Metrics, status_class, stream_metrics, Streaming, complete,
  backend_dropped, client_left,
}

-- What the attempts come to: a status below 500 from the leased replica, or from another one that was
-- healthy and not tried when the first attempt had failed; an error after the first attempt failed;
-- or a cancellation.
abbrev pub Delivered :
    Network → (ℕ → World → World) → RouteLease → World → Sent × RouteLease × World → Type 0
Delivered net during lease w (answered status, lease', w') =
    (status < 500)
    × (((attempt net 1 lease w ≡ accepted status) × (lease' ≡ lease))
        ⊎ ((error : String) × (attempt net 1 lease w ≡ broken error)
            × IsEligible lease.excluded (during 1 w).router lease'.replica))
Delivered net during lease w (unreachable error, lease', w') =
    (first : String) × (attempt net 1 lease w ≡ broken first)
Delivered net during lease w (cancelled, lease', w') =
    (attempt net 1 lease w ≡ aborted) ⊎ ((first : String) × (attempt net 1 lease w ≡ broken first))

verdict-lt :
    (net : Network) (r : Reply) (status : ℕ) → verdict net r ≡ accepted status → status < 500
verdict-lt net (response n) status e = ground arith
verdict-lt net (http_error error) status e = ground arith
verdict-lt net disconnected status e = ground arith

last-Delivered :
    (net : Network) (during : ℕ → World → World) (lease lease' : RouteLease) (w v : World)
    (error : String) (a : Attempt)
    → attempt net 1 lease w ≡ broken error
    → IsEligible lease.excluded (during 1 w).router lease'.replica
    → ((status : ℕ) → a ≡ accepted status → status < 500)
    → Delivered net during lease w (settle a, lease', v)
last-Delivered net during lease lease' w v error (accepted status) e fit low =
    (low status refl, inr (error, e, fit))
last-Delivered net during lease lease' w v error (broken last) e fit low = (error, e)
last-Delivered net during lease lease' w v error aborted e fit low = inr (error, e)

rerouted-Delivered :
    (net : Network) (during : ℕ → World → World) (lease lease' : RouteLease) (w : World)
    (error : String) (r : Result ℕ) (s : ReplicaRouter)
    → attempt net 1 lease w ≡ broken error
    → Rerouted lease (during 1 w).router (r, lease', s)
    → Delivered net during lease w
        (rerouted (send_with_retry net during 0) error (during 1 w).leases (r, lease', s))
unfolding send_with_retry
rerouted-Delivered net during lease lease' w error (err x) s e got = (error, e)
rerouted-Delivered net during lease lease' w error (ok ref) s e got =
    let fit : IsEligible lease.excluded (during 1 w).router lease'.replica = rw (got.1) got.0 in
    last-Delivered net during lease lease' w _ error
      (attempt net 0 lease' (record { router = s; leases = (during 1 w).leases })) e fit
      (λ st h. verdict-lt net (net.answer 0 (s.heap lease'.replica).base_url) st h)

after-Delivered :
    (net : Network) (during : ℕ → World → World) (lease : RouteLease) (w : World) (a : Attempt)
    → attempt net 1 lease w ≡ a
    → Delivered net during lease w (after (send_with_retry net during 0) a lease (during 1 w))
after-Delivered net during lease w (accepted status) e =
    (verdict-lt net (net.answer 1 (w.router.heap lease.replica).base_url) status e, inl (e, refl))
after-Delivered net during lease w aborted e = inl e
after-Delivered net during lease w (broken error) e =
    rerouted-Delivered net during lease _ w error _ _ e
      (reroute-Rerouted lease (some error) (during 1 w).router)

-- With the one retry of the source, a response that is passed on has a status below 500; it is the
-- reply of the leased replica, or, when that attempt failed before its body, the lease has moved to
-- a registered healthy replica that was not tried. Without a response the first attempt failed, or
-- the client left.
pub send_with_retry-Delivered :
    (net : Network) (during : ℕ → World → World) (lease : RouteLease) (w : World)
    → Delivered net during lease w (send_with_retry net during 1 lease w)
unfolding send_with_retry
send_with_retry-Delivered net during lease w =
    after-Delivered net during lease w (attempt net 1 lease w) refl

-- What the counters say of a request that got a response: it is no longer in flight, its latency was
-- observed, and it was counted once, under the class of its status.
abbrev pub Counted : Metrics → Response × Metrics → Type 0
Counted m (stream status id, m') =
    (m'.requests_inflight ≡ m.requests_inflight)
    × (m'.observed ≡ m.observed + 1)
    × (m'.requests_total ≡ (status / 100) ∷ m.requests_total)
Counted m (error_response status reason, m') =
    (m'.requests_inflight ≡ m.requests_inflight)
    × (m'.observed ≡ m.observed + 1)
    × (m'.requests_total ≡ (status / 100) ∷ m.requests_total)
    × (m'.request_errors_total ≡ reason ∷ m.request_errors_total)
Counted m (raised, m') =
    (m'.requests_inflight ≡ m.requests_inflight)
    × (m'.observed ≡ m.observed + 1)
    × (m'.requests_total ≡ m.requests_total)

abbrev began : Metrics → Metrics
began m = record m { requests_inflight = m.requests_inflight + 1 }

stream_metrics-totals :
    (s : Streaming) (status : ℕ) (m : Metrics)
    → let m' =
        stream_metrics s
          (record (began m) { requests_total = (status / 100) ∷ m.requests_total }) in
      (m'.requests_inflight - 1 ≡ m.requests_inflight)
      × (m'.observed + 1 ≡ m.observed + 1)
      × (m'.requests_total ≡ (status / 100) ∷ m.requests_total)
stream_metrics-totals complete status m = (omega arith, refl, refl)
stream_metrics-totals (backend_dropped error) status m = (omega arith, refl, refl)
stream_metrics-totals client_left status m = (omega arith, refl, refl)

conclude-Counted :
    (net : Network) (during : World → World) (m : Metrics) (sent : Sent) (lease : RouteLease)
    (w : World)
    → let o = conclude net during (began m) (sent, lease, w) in Counted m (o.0, o.1.1)
unfolding cleanup status_class
conclude-Counted net during m (answered status) lease w =
    stream_metrics-totals net.streaming status m
conclude-Counted net during m (unreachable error) lease w = (omega arith, refl, refl, refl)
conclude-Counted net during m cancelled lease w = (omega arith, refl, refl)

with_lease-Counted :
    (net : Network) (during : ℕ → World → World) (m : Metrics) (w : World) (a : Acquired)
    → let o = with_lease net during (began m) w a in Counted m (o.0, o.1.1)
unfolding cleanup
with_lease-Counted net during m w none = (omega arith, refl, refl)
with_lease-Counted net during m w (some (err (overloaded n))) = (omega arith, refl, refl, refl)
with_lease-Counted net during m w (some (err no_healthy_replica)) = (omega arith, refl, refl, refl)
with_lease-Counted net during m w (some (err value_error)) = (omega arith, refl, refl)
with_lease-Counted net during m w (some (ok lease)) =
    let sent = send_with_retry net during 1 lease w in
    conclude-Counted net (during 2) m sent.0 sent.1 sent.2

-- When a request ends, the gauge of requests in flight is back where it was and its latency has been
-- observed; a request that got a response was counted once, under the class of its status, and an
-- error response once more under its reason.
pub proxy_generation-Counted :
    (net : Network) (wait : Wait) (during : ℕ → World → World) (w : World) (m : Metrics)
    → let o = proxy_generation net wait during w m in Counted m (o.0, o.1.1)
unfolding proxy_generation
proxy_generation-Counted net wait during w m =
    let got = acquire wait (during 3) w in with_lease-Counted net during m got.1 got.0
