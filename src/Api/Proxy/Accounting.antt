-- ===== src/Api/Proxy/Accounting.antt =====
-- api/proxy.py: the router's books over the life of a request.
use open_baseten_inference.Prelude.{
  ℕ, zero, suc, ◌+◌, String, Bool, Option, none, some, List, [], ◌∷◌, ◌++◌, length,
  get_elem?-append_last, modify-append_last, remove_at-append_last, if_intro, ◌&&◌, leb,
  Option-cases, inl, inr,
}
use open_baseten_inference.Runtime.Semaphore.{Semaphore, locked}
use open_baseten_inference.Runtime.Router.{
  ReplicaRouter, RouteLease, Result, no_healthy_replica, overloaded, value_error, ok, err, Begin,
  rejected, suspended, passed, acquire_begin, acquire_resume, acquire_cancel, reroute,
}
use open_baseten_inference.Runtime.Router.World.{World, hold}
use open_baseten_inference.Runtime.Router.Ledger.{Books}
use open_baseten_inference.Runtime.Router.Books.{
  acquire_finish-Books, retried-Books, finished-Books,
}
use open_baseten_inference.Api.Proxy.{
  Network, Sent, answered, unreachable, cancelled, send_with_retry, attempt, after, rerouted,
  Attempt, accepted, broken, aborted, cleanup, is_some, conclude, with_lease, Acquired, Wait, got,
  woken, awaited, entered, acquire, proxy_generation, Metrics,
}

-- The books, with the lease of the request beside those of the other tasks.
abbrev pub Owns : RouteLease → World → Type 0
Owns lease w = Books (record { router = w.router; leases = w.leases ++ lease ∷ [] })

-- Other tasks keep the books, and leave the lease of the request alone.
pub record OtherTasks (during : World → World) : Type 0 where
  pub without : (w : World) → Books w → Books (during w)
  pub with_ours : (lease : RouteLease) (w : World) → Owns lease w → Owns lease (during w)

abbrev Owned : Acquired × World → Type 0
Owned (some (ok lease), w) = Owns lease w
Owned (some (err e), w) = Books w
Owned (none, w) = Books w

got-Owned :
    (ls : List RouteLease) (r : Result RouteLease) (s : ReplicaRouter)
    → Books (hold ls (r, s))
    → Owned (got ls (r, s))
got-Owned ls (ok lease) s b = b
got-Owned ls (err e) s b = b

awaited-Owned :
    (wait : Wait) (w : World) (o : Option Semaphore) → Books w → Owned (awaited wait w o)
awaited-Owned wait w none b = b
awaited-Owned wait w (some sem) b = woken-Owned (wait.leaves w)
  where
    woken-Owned : (o : Option Bool) → Owned (woken wait w sem o)
    woken-Owned none =
        unfold acquire_resume in got-Owned w.leases _ _ (acquire_finish-Books _ w.leases b)
    woken-Owned (some done) = unfold acquire_cancel in b

entered-Owned :
    (wait : Wait) (during : World → World) (ls : List RouteLease) (b : Begin) (s : ReplicaRouter)
    → OtherTasks during
    → Books (record { router = s; leases = ls })
    → Owned (entered wait during ls (b, s))
entered-Owned wait during ls (rejected n) s others b = b
entered-Owned wait during ls passed s others b = got-Owned ls _ _ (acquire_finish-Books s ls b)
entered-Owned wait during ls suspended s others b =
    awaited-Owned wait _ _ (others.without (record { router = s; leases = ls }) b)

acquire_begin-Books :
    (w : World) → Books w → Books (record w { router = (acquire_begin w.router).1 })
unfolding acquire_begin
acquire_begin-Books w b = elim (Option-cases w.router.semaphore) [
  | inl n ↦ rw (n, acquire_begin) b
  | inr (sem, n) ↦
      rw (n, acquire_begin)
        (if_intro (λ (x : Begin × ReplicaRouter). Books (record w { router = x.1 }))
          (locked sem && leb w.router.max_queue_depth w.router.waiting) b
          (if_intro (λ (x : Begin × ReplicaRouter). Books (record w { router = x.1 })) (locked sem)
            b b))
]

acquire-Owned :
    (wait : Wait) (during : World → World) (w : World)
    → OtherTasks during
    → Books w
    → Owned (acquire wait during w)
unfolding acquire
acquire-Owned wait during w others b =
    entered-Owned wait during w.leases (acquire_begin w.router).0 (acquire_begin w.router).1 others
      (acquire_begin-Books w b)

reroute-Owns :
    (lease : RouteLease) (error : Option String) (w : World)
    → Owns lease w
    → let (r, lease', s) = reroute lease error w.router in Owns lease' (record w { router = s })
reroute-Owns lease error w b =
    rw (modify-append_last w.leases lease (λ l. (reroute lease error w.router).1)) at (
      retried-Books (length w.leases)
        (record { router = w.router; leases = w.leases ++ lease ∷ [] }) error (some lease)
        (get_elem?-append_last w.leases lease) b)

abbrev StillOwned : Sent × RouteLease × World → Type 0
StillOwned (sent, lease, w) = Owns lease w

rerouted-Owns :
    (again : RouteLease → World → Sent × RouteLease × World) (error : String) (ls : List RouteLease)
    (r : Result ℕ) (lease : RouteLease) (s : ReplicaRouter)
    → ((l : RouteLease) (v : World) → Owns l v → StillOwned (again l v))
    → Owns lease (record { router = s; leases = ls })
    → StillOwned (rerouted again error ls (r, lease, s))
rerouted-Owns again error ls (err e) lease s ih b = b
rerouted-Owns again error ls (ok ref) lease s ih b = ih lease _ b

after-Owns :
    (again : RouteLease → World → Sent × RouteLease × World) (a : Attempt) (lease : RouteLease)
    (w : World)
    → ((l : RouteLease) (v : World) → Owns l v → StillOwned (again l v))
    → Owns lease w
    → StillOwned (after again a lease w)
after-Owns again (accepted status) lease w ih b = b
after-Owns again aborted lease w ih b = b
after-Owns again (broken error) lease w ih b =
    rerouted-Owns again error w.leases _ _ _ ih (reroute-Owns lease (some error) w b)

send_with_retry-Owns :
    (net : Network) (during : ℕ → World → World) (left : ℕ) (lease : RouteLease) (w : World)
    → ((n : ℕ) → OtherTasks (during n))
    → Owns lease w
    → StillOwned (send_with_retry net during left lease w)
unfolding send_with_retry
send_with_retry-Owns net during zero lease w others b = (others 0).with_ours lease w b
send_with_retry-Owns net during (suc left) lease w others b =
    after-Owns (send_with_retry net during left) (attempt net (suc left) lease w) lease _
      (λ l v own. send_with_retry-Owns net during left l v others own)
      ((others (suc left)).with_ours lease w b)

cleanup-Books :
    (lease : RouteLease) (error : Option String) (w : World) (m : Metrics)
    → Owns lease w
    → Books (cleanup (some lease) error w m).0
unfolding cleanup
cleanup-Books lease error w m b = rw (remove_at-append_last w.leases lease) at (
    finished-Books (length w.leases) (is_some error) error
      (record { router = w.router; leases = w.leases ++ lease ∷ [] }) (some lease)
      (get_elem?-append_last w.leases lease) b)

conclude-Books :
    (net : Network) (during : World → World) (m : Metrics) (sent : Sent) (lease : RouteLease)
    (w : World)
    → OtherTasks during
    → Owns lease w
    → Books (conclude net during m (sent, lease, w)).1.0
conclude-Books net during m (answered status) lease w others b =
    cleanup-Books lease _ (during w) _ (others.with_ours lease w b)
conclude-Books net during m (unreachable error) lease w others b = cleanup-Books lease _ w _ b
conclude-Books net during m cancelled lease w others b = cleanup-Books lease _ w _ b

with_lease-Books :
    (net : Network) (during : ℕ → World → World) (m : Metrics) (w : World) (a : Acquired)
    → ((n : ℕ) → OtherTasks (during n))
    → Owned (a, w)
    → Books (with_lease net during m w a).1.0
unfolding cleanup
with_lease-Books net during m w none others b = b
with_lease-Books net during m w (some (err (overloaded n))) others b = b
with_lease-Books net during m w (some (err no_healthy_replica)) others b = b
with_lease-Books net during m w (some (err value_error)) others b = b
with_lease-Books net during m w (some (ok lease)) others b =
    let sent = send_with_retry net during 1 lease w in
    conclude-Books net (during 2) m sent.0 sent.1 sent.2 (others 2)
      (send_with_retry-Owns net during 1 lease w others b)

-- A proxied request leaves the router's books balanced on every path: when its client is served, or
-- refused, or leaves while it waits or streams, and when a backend fails before or after its
-- headers, the in-flight counters are the leases of the other tasks alone again, as long as those
-- tasks keep the books too and do not touch the request's lease.
pub proxy_generation-Books :
    (net : Network) (wait : Wait) (during : ℕ → World → World) (w : World) (m : Metrics)
    → ((n : ℕ) → OtherTasks (during n))
    → Books w
    → Books (proxy_generation net wait during w m).1.0
unfolding proxy_generation
proxy_generation-Books net wait during w m others b =
    let got = acquire wait (during 3) w in
    with_lease-Books net during (record m { requests_inflight = m.requests_inflight + 1 }) got.1
      got.0 others (acquire-Owned wait (during 3) w (others 3) b)
