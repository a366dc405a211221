-- ===== src/Runtime/Launch/Returned.antt =====
-- runtime/replicas.py: the ports of a set of replicas after its stop.
use open_baseten_inference.Prelude.{
  zero, suc, Bool-cases, inl, inr, ℕ, ◌≡◌, refl, ◌∙◌, Bool, true, false, not, ◌&&◌, ◌||◌, Option,
  none, some, List, [], ◌∷◌, ◌++◌, arith, ◌==◌, mem_nat, mem_nat-discard,
}
use open_baseten_inference.Runtime.Ports.{
  PortAllocator, CanBind, IsValid, scan, span, advance, allocate, release,
}
use open_baseten_inference.Runtime.Ports.Fresh.{allocate-Fresh, allocate-IsValid, release-IsValid}
use open_baseten_inference.Runtime.Launch.{
  ReplicaSet, LaunchEvent, begin, launched, became_ready, never_ready, collected, with_port,
  launch_step, launch_run, given_back, stop,
}

-- the reserved ports are those from before and the allocated ones, and these were not reserved before
abbrev pub Accounts : List ℕ → ReplicaSet → Type 0
Accounts before s =
    ((p : ℕ) → mem_nat p s.ports.reserved ≡ (mem_nat p s.allocated_ports || mem_nat p before))
    × ((p : ℕ) → (mem_nat p s.allocated_ports && mem_nat p before) ≡ false)
    × IsValid s.ports

mem_nat-append : (p q : ℕ) (xs : List ℕ) → mem_nat p (xs ++ q ∷ []) ≡ (p == q || mem_nat p xs)
mem_nat-append p q [] = ground arith
mem_nat-append p q (x ∷ xs) = ground (arith, mem_nat-append p q xs)

scan-none_keeps :
    (can_bind : CanBind) (n : ℕ) (s : PortAllocator)
    → (scan can_bind n s).0 ≡ none
    → (scan can_bind n s).1.reserved ≡ s.reserved
unfolding scan
scan-none_keeps can_bind zero s h = refl
scan-none_keeps can_bind (suc n) s h = ground (arith, scan-none_keeps can_bind n (advance s))

allocate-none_keeps :
    (can_bind : CanBind) (s : PortAllocator)
    → (allocate can_bind s).0 ≡ none
    → (allocate can_bind s).1.reserved ≡ s.reserved
unfolding allocate
allocate-none_keeps can_bind s h = scan-none_keeps can_bind (span s) s h

mem_nat-same : (p q : ℕ) (xs : List ℕ) → (p == q) ≡ true → mem_nat p xs ≡ mem_nat q xs
mem_nat-same p q xs e = let same : p ≡ q = ground arith in rw same

with_port-Accounts :
    (before : List ℕ) (s : ReplicaSet) (o : Option ℕ) (t : PortAllocator)
    → Accounts before s
    → IsValid t
    → (o ≡ none → t.reserved ≡ s.ports.reserved)
    → ((q : ℕ)
        → o ≡ some q
        → (t.reserved ≡ q ∷ s.ports.reserved) × (mem_nat q s.ports.reserved ≡ false))
    → Accounts before (with_port s (o, t))
with_port-Accounts before s none t (held, apart, v) w same fresh =
    ((λ p. rw (same refl) (held p)), apart, w)
with_port-Accounts before s (some q) t (held, apart, v) w same fresh =
    let (added, unreserved) = fresh q refl in
    (
      (λ p. rw added (ground (arith, mem_nat-append p q s.allocated_ports, held p))),
      (λ p. elim (Bool-cases (p == q)) [
        | inl e ↦ ground (
          arith,
          mem_nat-append p q s.allocated_ports,
          mem_nat-same p q before e,
          held q,
          unreserved,
        )
        | inr e ↦ ground (arith, mem_nat-append p q s.allocated_ports, apart p, e)
      ]),
      w,
    )

step-Accounts :
    (before : List ℕ) (e : LaunchEvent) (s : ReplicaSet)
    → Accounts before s
    → Accounts before (launch_step e s)
unfolding launch_step
step-Accounts before (begin can_bind) s h =
    with_port-Accounts before s (allocate can_bind s.ports).0 (allocate can_bind s.ports).1 h
      (allocate-IsValid can_bind s.ports h.2) (λ e. allocate-none_keeps can_bind s.ports e)
      (λ q e. let f = allocate-Fresh can_bind s.ports q h.2 e in (f.reserves, f.unreserved))
step-Accounts before (launched id base_url gpu_ids pid) s h = h
step-Accounts before (became_ready id) s h = h
step-Accounts before (never_ready id message) s h = h
step-Accounts before (collected id) s h = h

pub run-Accounts :
    (before : List ℕ) (es : List LaunchEvent) (s : ReplicaSet)
    → Accounts before s
    → Accounts before (launch_run es s)
run-Accounts before [] s h = h
run-Accounts before (e ∷ es) s h =
    run-Accounts before es (launch_step e s) (step-Accounts before e s h)

given_back-reserved :
    (p : ℕ) (ports : List ℕ) (a : PortAllocator)
    → mem_nat p (given_back ports a).reserved ≡ (not (mem_nat p ports) && mem_nat p a.reserved)
unfolding release
given_back-reserved p [] a = refl
given_back-reserved p (q ∷ qs) a =
    given_back-reserved p qs (release q a) ∙ ground (arith, mem_nat-discard q p a.reserved)

given_back-IsValid : (ports : List ℕ) (a : PortAllocator) → IsValid a → IsValid (given_back ports a)
given_back-IsValid [] a v = v
given_back-IsValid (p ∷ ps) a v = given_back-IsValid ps (release p a) (release-IsValid p a v)

pub stop-Accounts :
    (before : List ℕ) (s : ReplicaSet) → Accounts before s → Accounts before (stop s)
unfolding stop
stop-Accounts before s (held, apart, v) = (
  λ p. given_back-reserved p s.allocated_ports s.ports ∙ left_over _ _ _ (held p) (apart p),
  λ p. refl,
  given_back-IsValid s.allocated_ports s.ports v,
)
  where
    left_over :
        (held allocated before : Bool)
        → held ≡ (allocated || before)
        → (allocated && before) ≡ false
        → (not allocated && held) ≡ before
    left_over held allocated before h a = ground arith

pub new-Accounts :
    (s : ReplicaSet) → IsValid s.ports → s.allocated_ports ≡ [] → Accounts s.ports.reserved s
new-Accounts s v e = ((λ q. rw e refl), (λ q. rw e refl), v)

pub stop-allocated : (s : ReplicaSet) → (stop s).allocated_ports ≡ []
unfolding stop
stop-allocated s = refl

-- For a valid allocator and a set that has not allocated a port: whatever its launch tasks did, in
-- whatever order, after `stop` the allocator has reserved exactly the ports it had reserved before.
pub stop-reserved :
    (es : List LaunchEvent) (s : ReplicaSet) (p : ℕ)
    → IsValid s.ports
    → s.allocated_ports ≡ []
    → mem_nat p (stop (launch_run es s)).ports.reserved ≡ mem_nat p s.ports.reserved
unfolding stop
stop-reserved es s p v e =
    let t = launch_run es s in
    (stop-Accounts s.ports.reserved t (run-Accounts s.ports.reserved es s (new-Accounts s v e))).0 p
