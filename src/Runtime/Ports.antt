-- ===== src/Runtime/Ports.antt =====
-- src/servepilot/runtime/ports.py: `PortAllocator`. A method returns its result and the new state;
-- `none` is the `RuntimeStateError` of an exhausted range. The socket calls are the parameter
-- `can_bind`: whether `bind((host, port))` succeeds. One `allocate` probes a port at most once, so
-- within a call the answer for a port is a function of the port.
pub mod Fresh
pub mod Exhausted
pub mod Many
use mathlib.Core.Option
use open_baseten_inference.Prelude.{
  ℕ, zero, suc, ◌+◌, ◌-◌, ◌≤◌, String, Bool, ◌&&◌, Option, none, some, List, [], ◌∷◌, leb, ltb,
  mem_nat, discard, Distinct, if◌then◌else◌,
}

abbrev pub CanBind : Type 0
CanBind = String → ℕ → Bool

-- both addresses must be free
abbrev pub port_is_free : CanBind → ℕ → String → Bool
port_is_free can_bind port host = can_bind host port && can_bind "0.0.0.0" port

pub record PortAllocator : Type 0 where
  pub start : ℕ
  pub end : ℕ
  pub host : String
  pub reserved : List ℕ
  pub cursor : ℕ

-- `__init__`: `none` is the `ValueError` of an empty range
unfoldable pub new : ℕ → ℕ → String → Option PortAllocator
new start end host =
    if ltb end start
    then none
    else some (record { start = start; end = end; host = host; reserved = []; cursor = start })

-- the cursor after one more port was looked at
abbrev pub advance : PortAllocator → PortAllocator
advance s = record s { cursor = if leb s.end s.cursor then s.start else s.cursor + 1 }

-- `for _ in range(span)`
unfoldable pub scan : CanBind → ℕ → PortAllocator → Option ℕ × PortAllocator
scan can_bind zero s = (none, s)
scan can_bind (suc n) s =
    let port = s.cursor in
    let s' = advance s in
    let rest = scan can_bind n s' in
    if mem_nat port s.reserved
    then rest
    else if port_is_free can_bind port s.host
    then (some port, record s' { reserved = port ∷ s'.reserved })
    else rest

abbrev pub span : PortAllocator → ℕ
span s = s.end + 1 - s.start

unfoldable pub allocate : CanBind → PortAllocator → Option ℕ × PortAllocator
allocate can_bind s = scan can_bind (span s) s

-- The comprehension of `allocate_many`: an error ends it, and the ports taken so far stay reserved.
abbrev gather :
    Option ℕ → PortAllocator → Option (List ℕ) × PortAllocator → Option (List ℕ) × PortAllocator
gather none s rest = (none, s)
gather (some port) s (ports, s') = (Option.map (λ ps. port ∷ ps) ports, s')

-- The host's answers may change from call to call: the call with `n` more to come sees `can_bind n`.
unfoldable pub allocate_many : (ℕ → CanBind) → ℕ → PortAllocator → Option (List ℕ) × PortAllocator
allocate_many can_bind zero s = (some [], s)
allocate_many can_bind (suc n) s =
    let (r, s') = allocate (can_bind n) s in gather r s' (allocate_many can_bind n s')

unfoldable pub release : ℕ → PortAllocator → PortAllocator
release port s = record s { reserved = discard port s.reserved }

unfoldable pub release_all : PortAllocator → PortAllocator
release_all s = record s { reserved = [] }

-- The range is not empty, the cursor is in it, and no port is reserved twice or from outside.
pub record IsValid (s : PortAllocator) : Type 0 where
  pub nonempty : s.start ≤ s.end
  pub cursor_low : s.start ≤ s.cursor
  pub cursor_high : s.cursor ≤ s.end
  pub distinct : Distinct s.reserved
