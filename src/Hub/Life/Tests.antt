-- ===== src/Hub/Life/Tests.antt =====
-- A hub that is made, gets two ports and ends: the theorem at its inputs.
use vde.Base.{ℕ, ◌≡◌, refl, Option, none, some, List, [], ◌∷◌, ◌==◌, if◌then◌else◌, done}
use vde.Glib.Instance.{glib}
use vde.Signal.{Call}
use vde.Component.{Component, Command}
use vde.Component.Tests.{blank}
use vde.Connection.{Connection, Runner, zeroed_connection}
use vde.Hub.{HubEngine}
use vde.Hub.Life.{engine_hub_init, engine_hub_fini}
use vde.Hub.Life.Fini.{engine_hub_fini-init}

-- Closing a connection logs its private data.
abbrev closing : Runner (List ℕ)
closing = record {
  run_write = λ f p pkt s. (s, done);
  run_close = λ f p s. elim p [ none ↦ s | some a ↦ a ∷ s ];
  run_read_cb = λ f p pkt s. (s, done);
  run_write_cb = λ f p pkt s. (s, done);
  run_error_cb = λ f p pkt e s. (s, done);
}

abbrev connected : ℕ → Connection
connected p = record zeroed_connection { be_close = some 7; be_priv = some p }

abbrev connections : ℕ → Option Connection
connections a =
    if a == 10 then some (connected 10) else if a == 20 then some (connected 20) else none

abbrev status_command : Command
status_command = record { name = b's' ∷ []; func = 1; description = []; args = [] }

hub_life_example :
    let (q', c', made, st) =
      engine_hub_init (status_command ∷ []) (some 4) (λ i. some i) [] 3 blank in
    (hub : HubEngine) × (c'' : Component) × (calls : List (Call (Unit {0}))) × (engine_hub_fini
        closing connections
        (status_command ∷ [])
        q'
        3
        c'
        (record hub { ports = 20 ∷ 10 ∷ [] })
        []
      ≡ some (10 ∷ 20 ∷ [], c'', calls))
hub_life_example =
    let r =
      engine_hub_fini-init closing connections (status_command ∷ []) 4 0 1 (λ i. some i) [] 3 blank
        (20 ∷ 10 ∷ []) [] refl refl refl refl (refl, tt) (refl, (refl, tt))
        ((connected 20, 7, refl, refl), ((connected 10, 7, refl, refl), tt)) in
    (r.0, r.1, r.2, r.6)
