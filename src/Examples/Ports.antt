-- ===== src/Examples/Ports.antt =====
-- runtime/ports.py at small ranges.
use open_baseten_inference.Prelude.{ℕ, ◌≡◌, refl, not, none, some, [], ◌∷◌, arith, ◌==◌}
use open_baseten_inference.Runtime.Ports.{
  CanBind, PortAllocator, IsValid, scan, allocate, allocate_many, release,
}
use open_baseten_inference.Runtime.Ports.Fresh.{Fresh, allocate-Fresh}
use open_baseten_inference.Runtime.Ports.Exhausted.{Taken, allocate_exhausted}
use open_baseten_inference.Runtime.Ports.Many.{ManyFresh, allocate_many-ManyFresh, release-allocate}

-- every port but 31 can be bound
abbrev busy_31 : CanBind
busy_31 host port = not (port == 31)

abbrev three_ports : PortAllocator
three_ports = record { start = 30; end = 32; host = "127.0.0.1"; reserved = 30 ∷ []; cursor = 31 }

three_ports-IsValid : IsValid three_ports
three_ports-IsValid = ground arith

three_ports-allocate : (allocate busy_31 three_ports).0 ≡ some 32
unfolding allocate scan
three_ports-allocate = refl

allocate-Fresh_example : Fresh busy_31 three_ports 32 (allocate busy_31 three_ports).1
allocate-Fresh_example =
    allocate-Fresh busy_31 three_ports 32 three_ports-IsValid three_ports-allocate

abbrev full : PortAllocator
full = record { start = 30; end = 32; host = "127.0.0.1"; reserved = 32 ∷ 30 ∷ []; cursor = 30 }

full-IsValid : IsValid full
full-IsValid = ground arith

full-allocate : (allocate busy_31 full).0 ≡ none
unfolding allocate scan
full-allocate = refl

allocate_exhausted_example : Taken busy_31 full 31
allocate_exhausted_example =
    allocate_exhausted busy_31 full 31 full-IsValid full-allocate (omega arith) (omega arith)

abbrev any_host : ℕ → CanBind
any_host n = busy_31

abbrev empty_range : PortAllocator
empty_range = record { start = 30; end = 34; host = "127.0.0.1"; reserved = []; cursor = 33 }

empty_range-IsValid : IsValid empty_range
empty_range-IsValid = ground arith

two_ports : (allocate_many any_host 2 empty_range).0 ≡ some (33 ∷ 34 ∷ [])
unfolding allocate_many allocate scan
two_ports = refl

allocate_many-ManyFresh_example :
    ManyFresh 2 empty_range (33 ∷ 34 ∷ []) (allocate_many any_host 2 empty_range).1
allocate_many-ManyFresh_example =
    allocate_many-ManyFresh any_host 2 empty_range (33 ∷ 34 ∷ []) empty_range-IsValid two_ports

release-allocate_example :
    (release 32 (allocate busy_31 three_ports).1).reserved ≡ three_ports.reserved
release-allocate_example =
    release-allocate busy_31 three_ports 32 three_ports-IsValid three_ports-allocate
