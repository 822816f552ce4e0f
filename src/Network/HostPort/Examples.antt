-- ===== src/Network/HostPort/Examples.antt =====
-- Ports on a host that uses two.
use innerstack.Prelude.{◌≡◌, ℕ, List, [], ◌∷◌, false, contains, number_key, arith}
use innerstack.Network.HostPort.{host_port_alloc}
use innerstack.Network.HostPort.Free.{InRange, host_port_alloc_auto}

abbrev used : List ℕ
used = 20000 ∷ 20001 ∷ []

abbrev zeros : ℕ → ℕ
zeros i = 0

host_port_alloc_auto_example :
    InRange (host_port_alloc zeros used 0) × (contains used (host_port_alloc zeros used 0) ≡ false)
host_port_alloc_auto_example = host_port_alloc_auto zeros used (omega arith)
