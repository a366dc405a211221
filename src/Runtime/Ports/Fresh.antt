-- ===== src/Runtime/Ports/Fresh.antt =====
-- runtime/ports.py, `allocate` and `release`: valid allocators, and the ports that are handed out.
use open_baseten_inference.Prelude.{
  ℕ, zero, suc, ◌≤◌, ◌≡◌, true, false, some, ◌∷◌, arith, String, mem_nat, Distinct-discard,
}
use open_baseten_inference.Runtime.Ports.{
  CanBind, PortAllocator, IsValid, port_is_free, new, advance, scan, allocate, release,
}

-- What one call promises when it hands out `port`.
pub record Fresh (can_bind : CanBind) (s : PortAllocator) (port : ℕ) (t : PortAllocator)
    : Type 0 where
  pub low : s.start ≤ port
  pub high : port ≤ s.end
  pub unreserved : mem_nat port s.reserved ≡ false
  pub free : port_is_free can_bind port s.host ≡ true
  pub reserves : t.reserved ≡ port ∷ s.reserved
  pub same_start : t.start ≡ s.start
  pub same_end : t.end ≡ s.end
  pub same_host : t.host ≡ s.host

advance-IsValid : (s : PortAllocator) → IsValid s → IsValid (advance s)
advance-IsValid s v = ground arith

scan-IsValid :
    (can_bind : CanBind) (n : ℕ) (s : PortAllocator) → IsValid s → IsValid (scan can_bind n s).1
unfolding scan
scan-IsValid can_bind zero s v = v
scan-IsValid can_bind (suc n) s v =
    ground (arith, scan-IsValid can_bind n (advance s) (advance-IsValid s v))

scan-Fresh :
    (can_bind : CanBind) (n : ℕ) (s : PortAllocator) (port : ℕ)
    → IsValid s
    → (scan can_bind n s).0 ≡ some port
    → Fresh can_bind s port (scan can_bind n s).1
unfolding scan
scan-Fresh can_bind zero s port v h = absurd (cc)
scan-Fresh can_bind (suc n) s port v h =
    ground (arith, scan-Fresh can_bind n (advance s) port (advance-IsValid s v))

-- A port that `allocate` of a valid allocator hands out is in the range, could be bound on the host and
-- on the wildcard address, was not reserved before, and is the one port added to the reservations.
pub allocate-Fresh :
    (can_bind : CanBind) (s : PortAllocator) (port : ℕ)
    → IsValid s
    → (allocate can_bind s).0 ≡ some port
    → Fresh can_bind s port (allocate can_bind s).1
unfolding allocate
allocate-Fresh can_bind s port v h = scan-Fresh can_bind _ s port v h

pub allocate-IsValid :
    (can_bind : CanBind) (s : PortAllocator) → IsValid s → IsValid (allocate can_bind s).1
unfolding allocate
allocate-IsValid can_bind s v = scan-IsValid can_bind _ s v

pub release-IsValid : (port : ℕ) (s : PortAllocator) → IsValid s → IsValid (release port s)
unfolding release
release-IsValid port s v = record {
  nonempty = v.nonempty;
  cursor_low = v.cursor_low;
  cursor_high = v.cursor_high;
  distinct = Distinct-discard port s.reserved v.distinct;
}

new-IsValid :
    (start end : ℕ) (host : String) (s : PortAllocator) → new start end host ≡ some s → IsValid s
unfolding new
new-IsValid start end host s h = ground arith
