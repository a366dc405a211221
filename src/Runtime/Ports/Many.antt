-- ===== src/Runtime/Ports/Many.antt =====
-- runtime/ports.py, `allocate_many`, and a port's way back through `release`.
use open_baseten_inference.Prelude.{
  ℕ, zero, suc, ◌≡◌, refl, true, false, ◌||◌, Option, none, some, List, [], ◌∷◌, arith, length, ap,
  subst, mem_nat, Distinct, discard-not_mem,
}
use open_baseten_inference.Runtime.Ports.{
  CanBind, PortAllocator, IsValid, allocate, gather, allocate_many, release,
}
use open_baseten_inference.Runtime.Ports.Fresh.{allocate-Fresh, allocate-IsValid}

-- What `allocate_many` promises when it returns `ports`.
pub record ManyFresh (count : ℕ) (s : PortAllocator) (ports : List ℕ) (t : PortAllocator)
    : Type 0 where
  pub counted : length ports ≡ count
  pub different : Distinct ports
  pub unreserved : (port : ℕ) → mem_nat port ports ≡ true → mem_nat port s.reserved ≡ false
  pub reserves :
      (port : ℕ) → mem_nat port t.reserved ≡ (mem_nat port ports || mem_nat port s.reserved)
  pub still_valid : IsValid t

module _ (s s' t : PortAllocator) (port n : ℕ) (more : List ℕ)
    (reserves : s'.reserved ≡ port ∷ s.reserved) (unreserved : mem_nat port s.reserved ≡ false)
    (ih : ManyFresh n s' more t) where
  reserved-first : (q : ℕ) → mem_nat q s'.reserved ≡ mem_nat q (port ∷ s.reserved)
  reserved-first q = ap (mem_nat q) reserves

  ManyFresh-cons : ManyFresh (suc n) s (port ∷ more) t
  ManyFresh-cons = record {
    counted = omega (arith, ih.counted);
    different = (ground (arith, reserved-first port, ih.unreserved port), ih.different);
    unreserved = λ q m. ground (arith, unreserved, reserved-first q, ih.unreserved q);
    reserves = λ q. ground (arith, ih.reserves q, reserved-first q);
    still_valid = ih.still_valid;
  }

ManyFresh-nil : (s : PortAllocator) → IsValid s → ManyFresh 0 s [] s
ManyFresh-nil s v = record {
  counted = refl;
  different = tt;
  unreserved = λ port m. absurd (cc);
  reserves = λ port. refl;
  still_valid = v;
}

gather-ManyFresh :
    (can_bind : CanBind) (s : PortAllocator) (n : ℕ) (rest : Option (List ℕ) × PortAllocator)
    → IsValid s
    → (r : Option ℕ) → (allocate can_bind s).0 ≡ r
    → (more : Option (List ℕ)) → rest.0 ≡ more
    → ((ports : List ℕ) → more ≡ some ports → ManyFresh n (allocate can_bind s).1 ports rest.1)
    → (ports : List ℕ) → (gather r (allocate can_bind s).1 (more, rest.1)).0 ≡ some ports
    → ManyFresh (suc n) s ports (gather r (allocate can_bind s).1 (more, rest.1)).1
gather-ManyFresh can_bind s n rest v none e more e' ih ports h = absurd (cc)
gather-ManyFresh can_bind s n rest v (some port) e none e' ih ports h = absurd (cc)
gather-ManyFresh can_bind s n rest v (some port) e (some more) e' ih ports h =
    let fresh = allocate-Fresh can_bind s port v e in
    let made : port ∷ more ≡ ports = cc in
    subst (λ ps. ManyFresh (suc n) s ps rest.1) made
      (ManyFresh-cons s (allocate can_bind s).1 rest.1 port n more fresh.reserves fresh.unreserved
        (ih more refl))

-- `n` ports that `allocate_many` of a valid allocator returns are different, were free of reservations
-- before the call, and are exactly what the call adds to them; the allocator stays valid.
pub allocate_many-ManyFresh :
    (can_bind : ℕ → CanBind) (n : ℕ) (s : PortAllocator) (ports : List ℕ)
    → IsValid s
    → (allocate_many can_bind n s).0 ≡ some ports
    → ManyFresh n s ports (allocate_many can_bind n s).1
unfolding allocate_many
allocate_many-ManyFresh can_bind zero s ports v h =
    let made : [] ≡ ports = cc in subst (λ ps. ManyFresh 0 s ps s) made (ManyFresh-nil s v)
allocate_many-ManyFresh can_bind (suc n) s ports v h =
    let s' = (allocate (can_bind n) s).1 in
    let rest = allocate_many can_bind n s' in
    gather-ManyFresh (can_bind n) s n rest v _ refl _ refl
      (λ more e. allocate_many-ManyFresh can_bind n s' more (allocate-IsValid (can_bind n) s v) e)
      ports h

-- Giving back the port that `allocate` of a valid allocator handed out restores the reservations.
pub release-allocate :
    (can_bind : CanBind) (s : PortAllocator) (port : ℕ)
    → IsValid s
    → (allocate can_bind s).0 ≡ some port
    → (release port (allocate can_bind s).1).reserved ≡ s.reserved
unfolding release
release-allocate can_bind s port v h =
    let fresh = allocate-Fresh can_bind s port v h in
    ground (arith, fresh.reserves, fresh.unreserved, discard-not_mem port s.reserved)
