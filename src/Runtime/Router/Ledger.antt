-- ===== src/Runtime/Router/Ledger.antt =====
-- runtime/router.py: who holds which replica object, and how charging, moving and dropping a lease
-- changes that.
use open_baseten_inference.Prelude.{
  ℕ, ◌+◌, ◌≤◌, ◌<◌, ◌≡◌, refl, Bool, Option, none, some, List, [], ◌∷◌, ◌++◌, arith, String, All,
  All-mem, All-append, All-modify, All-remove_at, ==_refl, if_intro, ◌==◌, get_elem?, modify,
  remove_at, sum_by, sum_by-append, sum_by-modify, sum_by-remove_at, if◌then◌else◌, str_eq,
}
use open_baseten_inference.Prelude.Dict.{assign, discard_key}
use open_baseten_inference.Schemas.Runtime.{ReplicaState}
use open_baseten_inference.Runtime.Router.{
  ReplicaRouter, RouteLease, ok, update, charge, discharge, note_error, add_failure, select,
}
use open_baseten_inference.Runtime.Router.Choice.{refs, select-IsEligible}
use open_baseten_inference.Runtime.Router.World.{World}

abbrev pub holds : ℕ → RouteLease → ℕ
holds ref l = if l.replica == ref then 1 else 0

-- how many leases hold the object
abbrev pub held : ℕ → List RouteLease → ℕ
held ref = sum_by (holds ref)

pub record Balanced (heap : ℕ → ReplicaState) (next : ℕ) (replicas : List (String × ℕ))
    (leases : List RouteLease) : Type 0 where
  pub leases_valid : All (λ l. l.replica < next) leases
  pub replicas_valid : All (λ ref. ref < next) (refs replicas)
  pub counted : (ref : ℕ) → ref < next → (heap ref).inflight_requests ≡ held ref leases

-- Every reference is allocated, and every counter is the number of leases.
abbrev pub Books : World → Type 0
Books w = Balanced w.router.heap w.router.next w.router.replicas w.leases

pub held-fresh :
    (next ref : ℕ) (ls : List RouteLease)
    → next ≤ ref
    → All (λ l. l.replica < next) ls
    → held ref ls ≡ 0
held-fresh next ref [] h v = refl
held-fresh next ref (l ∷ ls) h v = ground (arith, held-fresh next ref ls h v.1)

held-pos :
    (ls : List RouteLease) (i : ℕ) (l : RouteLease)
    → get_elem? ls i ≡ some l
    → 1 ≤ held l.replica ls
held-pos ls i l h = ground (arith, sum_by-remove_at (holds l.replica) ls i h, ==_refl l.replica)

pub refs-assign :
    (P : ℕ → Type 0) (m : List (String × ℕ)) (k : String) (v : ℕ)
    → All P (refs m)
    → P v
    → All P (refs (assign m k v))
refs-assign P [] k v h p = (p, tt)
refs-assign P ((j, w) ∷ m) k v h p =
    if_intro (λ d. All P (refs d)) (str_eq j k) {x = (k, v) ∷ m} {y = (j, w) ∷ assign m k v}
      (p, h.1) (h.0, refs-assign P m k v h.1 p)

pub refs-discard_key :
    (P : ℕ → Type 0) (m : List (String × ℕ)) (k : String)
    → All P (refs m)
    → All P (refs (discard_key m k))
refs-discard_key P [] k h = h
refs-discard_key P ((j, w) ∷ m) k h =
    if_intro (λ d. All P (refs d)) (str_eq j k) {x = m} {y = (j, w) ∷ discard_key m k} h.1
      (h.0, refs-discard_key P m k h.1)

pub note_error-inflight :
    (e : Option String) (r : ReplicaState)
    → (note_error e r).inflight_requests ≡ r.inflight_requests
note_error-inflight none r = refl
note_error-inflight (some e) r = refl

pub charge-Balanced :
    {heap : ℕ → ReplicaState} {next : ℕ} {replicas : List (String × ℕ)} {ls : List RouteLease}
    (l : RouteLease)
    → Balanced heap next replicas ls
    → l.replica < next
    → Balanced (update l.replica charge heap) next replicas (ls ++ l ∷ [])
charge-Balanced {next} {ls} l b h = record {
  leases_valid = All-append (λ m. m.replica < next) ls (l ∷ []) b.leases_valid (h, tt);
  replicas_valid = b.replicas_valid;
  counted = λ r lt. ground (arith, b.counted r lt, sum_by-append (holds r) ls (l ∷ []));
}

-- A lease moves from one object to another.
pub move-Balanced :
    {heap : ℕ → ReplicaState} {next : ℕ} {replicas : List (String × ℕ)} {ls : List RouteLease}
    (i : ℕ) (l m : RouteLease) (error : Option String)
    → get_elem? ls i ≡ some l
    → Balanced heap next replicas ls
    → m.replica < next
    → Balanced
        (update m.replica charge (update l.replica (λ r. add_failure error (discharge r)) heap))
        next
        replicas
        (modify ls i (λ _. m))
move-Balanced {heap} {next} {ls} i l m error at b h = record {
  leases_valid = All-modify (λ k. k.replica < next) ls i m b.leases_valid h;
  replicas_valid = b.replicas_valid;
  counted = λ r lt. ground (
    arith,
    b.counted r lt,
    sum_by-modify (holds r) ls i l m at,
    held-pos ls i l at,
    note_error-inflight error (record (discharge (heap r)) { failures = (heap r).failures + 1 }),
  );
}

-- A lease ends.
pub drop-Balanced :
    {heap : ℕ → ReplicaState} {next : ℕ} {replicas : List (String × ℕ)} {ls : List RouteLease}
    (i : ℕ) (l : RouteLease) (failed : Bool) (error : Option String)
    → get_elem? ls i ≡ some l
    → Balanced heap next replicas ls
    → Balanced
        (update l.replica
          (λ r. if failed then add_failure error (discharge r) else discharge r)
          heap)
        next
        replicas
        (remove_at ls i)
drop-Balanced {heap} {next} {ls} i l failed error at b = record {
  leases_valid = All-remove_at (λ k. k.replica < next) ls i b.leases_valid;
  replicas_valid = b.replicas_valid;
  counted = λ r lt. ground (
    arith,
    b.counted r lt,
    sum_by-remove_at (holds r) ls i at,
    held-pos ls i l at,
    note_error-inflight error (record (discharge (heap r)) { failures = (heap r).failures + 1 }),
  );
}

pub chosen-lt :
    (excluded : List String) (s : ReplicaRouter) (ref : ℕ) {ls : List RouteLease}
    → Balanced s.heap s.next s.replicas ls
    → (select excluded s).0 ≡ ok ref
    → ref < s.next
chosen-lt excluded s ref b h =
    All-mem (λ r. r < s.next) (refs s.replicas) b.replicas_valid
      (select-IsEligible excluded s ref h).registered
