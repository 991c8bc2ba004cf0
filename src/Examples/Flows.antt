-- ===== src/Examples/Flows.antt =====
-- The UDP listener of natforge-node at concrete inputs.
use natforge_thesis.Prelude.{
  ◌≡◌, refl, true, codes, [], ◌∷◌, none, some, get, insert, remove, beq, arith,
}
use natforge_thesis.Proto.Route.{udp}
use natforge_thesis.Proto.Preamble.{SocketAddr}
use natforge_thesis.Node.State.{RouteHandle, is_country_blocked, lists_country}
use natforge_thesis.Node.Flows.Addresses.{addr_eq, same_ip}
use natforge_thesis.Node.Flows.{
  Flow, Listener, opened, Arrival, is_relaying, open_flow, on_datagram, on_closed, Step, datagram,
  ends, sends, Reach, here, turn, fresh,
}
use natforge_thesis.Node.Flows.Table.{IsBounded, IsCovered, Serves, Reach-IsCovered}
use natforge_thesis.Node.Flows.Drained.{Settles, Reach-drained, on_closed_stale}
use natforge_thesis.Examples.Serve.{node, visitor}

abbrev voice_route : RouteHandle
voice_route = record { tunnel_id = 5; owner_id = 3; route_id = 2; mode = udp; session = 1 }

abbrev first : Arrival
first = record {
  peer = visitor;
  core = node;
  country = some (codes "GR");
  has_room = true;
  opening = opened;
}

Reach-IsCovered_example :
    IsBounded (on_datagram voice_route first fresh)
    × IsCovered (on_datagram voice_route first fresh)
Reach-IsCovered_example =
    Reach-IsCovered voice_route (on_datagram voice_route first fresh)
      (turn here (datagram first refl))

abbrev flow : Flow
flow = record { id = 0; peer = visitor }

abbrev serving : Listener
serving = record {
  flows = (visitor, 0) ∷ [];
  relaying = flow ∷ [];
  ending = [];
  closed = [];
  next = 1;
  running = true;
}

opens : on_datagram voice_route first fresh ≡ serving
unfolding on_datagram open_flow is_country_blocked lists_country get insert remove beq
opens = refl

abbrev over : Listener
over = record serving { relaying = []; ending = flow ∷ [] }

over_reached : Reach voice_route fresh over
unfolding on_datagram open_flow is_country_blocked lists_country get insert remove beq
over_reached = turn (turn here (datagram first refl)) (ends [] flow [] refl)

Reach-drained_example :
    (m : Listener) × Settles voice_route over m
    × (m.running ≡ true)
    × ((peer : SocketAddr) → get peer m.flows ≡ none)
Reach-drained_example = Reach-drained voice_route over over_reached refl refl

abbrev told : Listener
told = record serving { relaying = []; closed = visitor ∷ [] }

told_reached : Reach voice_route fresh told
told_reached = turn over_reached (sends [] flow [] refl)

on_closed_stale_example :
    (get visitor (on_datagram voice_route first told).flows ≡ some 1)
    × Step voice_route
        (on_datagram voice_route first told)
        (on_closed visitor [] (on_datagram voice_route first told))
    × Serves 1 visitor (on_closed visitor [] (on_datagram voice_route first told)).relaying
    × (get visitor (on_closed visitor [] (on_datagram voice_route first told)).flows ≡ none)
unfolding get same_ip beq is_relaying is_country_blocked lists_country
on_closed_stale_example =
    on_closed_stale voice_route told first 0 [] refl refl refl refl (omega arith) refl refl
