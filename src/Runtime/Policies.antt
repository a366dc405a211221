-- ===== src/Runtime/Policies.antt =====
-- src/servepilot/runtime/policies.py: the routing policies. A policy object is its counter, the
-- `itertools.count()` of `_tick`; a candidate is a replica object with its reference. `none` is the
-- `ValueError` raised on an empty sequence. No policy reads the request's metadata.
pub mod Choice
use open_baseten_inference.Prelude.{
  ℕ, ◌+◌, ◌%◌, String, Option, none, some, List, [], ◌∷◌, min, length, get_elem?, keep, ◌==◌,
  str_eq, if◌then◌else◌,
}
use open_baseten_inference.Schemas.Runtime.{ReplicaState}

abbrev pub Candidate : Type 0
Candidate = ℕ × ReplicaState

abbrev pub inflight_of : Candidate → ℕ
inflight_of c = c.1.inflight_requests

pub data RoutingPolicy : Type 0 where
  least_inflight : ℕ → RoutingPolicy
  round_robin : ℕ → RoutingPolicy

-- `min(r.inflight_requests for r in replicas)`
unfoldable pub minimum : Candidate → List Candidate → ℕ
minimum c [] = inflight_of c
minimum c (d ∷ ds) = min (inflight_of c) (minimum d ds)

abbrev pub ties : ℕ → List Candidate → List Candidate
ties n = keep (λ c. inflight_of c == n)

unfoldable pub select_policy : RoutingPolicy → List Candidate → Option Candidate × RoutingPolicy
select_policy (least_inflight tick) [] = (none, least_inflight tick)
select_policy (least_inflight tick) (c ∷ cs) =
    let tied = ties (minimum c cs) (c ∷ cs) in
    if length tied == 1
    then (get_elem? tied 0, least_inflight tick)
    else (get_elem? tied (tick % length tied), least_inflight (tick + 1))
select_policy (round_robin tick) [] = (none, round_robin tick)
select_policy (round_robin tick) (c ∷ cs) =
    (get_elem? (c ∷ cs) (tick % length (c ∷ cs)), round_robin (tick + 1))

-- `make_policy`: `none` is the `ValueError` of an unknown name
unfoldable pub make_policy : String → Option RoutingPolicy
make_policy name =
    if str_eq name "least_inflight"
    then some (least_inflight 0)
    else if str_eq name "round_robin"
    then some (round_robin 0)
    else none
