-- ===== src/Hub/Tests.antt =====
-- A hub with two ports: the theorems at its inputs.
use vde.Base.{◌≡◌, refl, [], ◌∷◌, ◌==◌, ◌&&◌, not, mem, if◌then◌else◌, done}
use vde.Glib.Instance.{glib}
use vde.Packet.Tests.{sent}
use vde.Hub.{HubEngine, Addresses, hub_engine_readcb}
use vde.Hub.Laws.{logging, count, hub_engine_readcb-once}

abbrev two_ports : HubEngine
two_ports = record { component = 3; ports = 20 ∷ 10 ∷ [] }

abbrev addresses : Addresses
addresses = record { readcb = 1; errorcb = 2; hub = 4 }

readcb_example :
    count 20 (hub_engine_readcb (logging (λ p. done)) two_ports 10 sent []).0
    ≡ (if mem 20 two_ports.ports && not (20 == 10) then 1 else 0)
readcb_example = hub_engine_readcb-once (λ p. done) two_ports 10 20 sent (refl, (refl, tt))
