-- ===== src/Runtime/Ports/Exhausted.antt =====
-- runtime/ports.py, `allocate`: the ports that its cursor visits before it raises.
use open_baseten_inference.Prelude.{
  ℕ, zero, suc, ◌+◌, ◌-◌, ◌≤◌, ◌<◌, ◌≡◌, ◌⊎◌, refl, true, false, none, arith, mem_nat, leb,
  if◌then◌else◌,
}
use open_baseten_inference.Runtime.Ports.{
  CanBind, PortAllocator, IsValid, port_is_free, advance, scan, span, allocate,
}

-- The port cannot be handed out.
abbrev pub Taken : CanBind → PortAllocator → ℕ → Type 0
Taken can_bind s port =
    (mem_nat port s.reserved ≡ true) ⊎ (port_is_free can_bind port s.host ≡ false)

-- How many ports the cursor passes before it stands on `port`.
abbrev steps_to : PortAllocator → ℕ → ℕ
steps_to s port =
    if leb s.cursor port then port - s.cursor else (s.end + 1 - s.cursor) + (port - s.start)

scan_visits :
    (can_bind : CanBind) (n : ℕ) (s : PortAllocator) (port : ℕ)
    → s.start ≤ s.cursor
    → s.cursor ≤ s.end
    → s.start ≤ port
    → port ≤ s.end
    → steps_to s port < n
    → (scan can_bind n s).0 ≡ none
    → Taken can_bind s port
unfolding scan
scan_visits can_bind zero s port cl ch pl ph near h = absurd (omega arith)
scan_visits can_bind (suc n) s port cl ch pl ph near h =
    ground (arith, scan_visits can_bind n (advance s) port)

-- When `allocate` of a valid allocator raises, every port of the range is reserved or cannot be bound.
pub allocate_exhausted :
    (can_bind : CanBind) (s : PortAllocator) (port : ℕ)
    → IsValid s
    → (allocate can_bind s).0 ≡ none
    → s.start ≤ port
    → port ≤ s.end
    → Taken can_bind s port
unfolding allocate
allocate_exhausted can_bind s port v h low high =
    scan_visits can_bind (span s) s port v.cursor_low v.cursor_high low high (ground arith) h

scan-reserved_none :
    (can_bind : CanBind) (n : ℕ) (s : PortAllocator)
    → (scan can_bind n s).0 ≡ none
    → (scan can_bind n s).1.reserved ≡ s.reserved
unfolding scan
scan-reserved_none can_bind zero s h = refl
scan-reserved_none can_bind (suc n) s h = ground (arith, scan-reserved_none can_bind n (advance s))

allocate-reserved_none :
    (can_bind : CanBind) (s : PortAllocator)
    → (allocate can_bind s).0 ≡ none
    → (allocate can_bind s).1.reserved ≡ s.reserved
unfolding allocate
allocate-reserved_none can_bind s h = scan-reserved_none can_bind _ s h
