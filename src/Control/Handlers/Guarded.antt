-- ===== src/Control/Handlers/Guarded.antt =====
-- Who may change a tunnel through natforge-backend/src/handlers/tunnels.rs.
pub mod Apart
pub mod Edits
pub mod Alone
use natforge_thesis.Prelude.{
  ℕ, ◌≡◌, ◌≢◌, refl, Bytes, codes, beq_iff, List, [], Option, none, some, get, nat_eq, arith, ok,
  err,
}
use natforge_thesis.Control.Policy.{RequestedRoute}
use natforge_thesis.Control.Ports.{TunnelEntry}
use natforge_thesis.Control.Site.{
  Site, AuthUser, Refusal, no_such_tunnel, not_your_tunnel, Done, refuse, authorize_tunnel,
}
use natforge_thesis.Control.Handlers.{
  Unicode, stop_tunnel, start_tunnel, remove_tunnel, move_tunnel, set_tunnel_region_blocks,
  put_custom_domain, clear_custom_domain, put_route_srv, put_routes,
}
use natforge_thesis.Control.Handlers.Edit.{EditTunnelReq, edit_tunnel}

-- A request on one tunnel.
pub data Command : Type 0 where
  stop : ℕ → Command
  start remove clear_domain : Command
  migrate set_domain : Bytes → Command
  block_regions : List Bytes → Command
  set_srv : ℕ → Option Bytes → Command
  set_routes : List RequestedRoute → Command
  edit : EditTunnelReq → Command

abbrev pub forget_answer {ℓ} : {A : Type ℓ} → Done A → Done (Unit {0})
forget_answer d = record {
  site = d.site;
  sent = d.sent;
  answer = elim d.answer [ ok a ↦ ok tt | err e ↦ err e ];
}

unfoldable pub perform : Unicode → Command → Site → AuthUser → ℕ → Done (Unit {0})
perform u (stop now) s user id = forget_answer (stop_tunnel now s user id)
perform u start s user id = forget_answer (start_tunnel s user id)
perform u remove s user id = forget_answer (remove_tunnel s user id)
perform u clear_domain s user id = forget_answer (clear_custom_domain s user id)
perform u (migrate node) s user id = forget_answer (move_tunnel s user id node)
perform u (set_domain domain) s user id = forget_answer (put_custom_domain u s user id domain)
perform u (block_regions asked) s user id =
    forget_answer (set_tunnel_region_blocks u s user id asked)
perform u (set_srv route_id label) s user id =
    forget_answer (put_route_srv s user id route_id label)
perform u (set_routes routes) s user id = forget_answer (put_routes s user id routes)
perform u (edit req) s user id = forget_answer (edit_tunnel u s user id req)

unauthorized :
    (u : Unicode) (c : Command) (s : Site) (user : AuthUser) (id : ℕ) (e : Refusal)
    → authorize_tunnel s user id ≡ err e
    → perform u c s user id ≡ record { site = s; sent = []; answer = err e }
unfolding perform stop_tunnel start_tunnel remove_tunnel clear_custom_domain move_tunnel
    put_custom_domain set_tunnel_region_blocks put_route_srv put_routes edit_tunnel
unauthorized u (stop now) s user id e h = rw h refl
unauthorized u start s user id e h = rw h refl
unauthorized u remove s user id e h = rw h refl
unauthorized u clear_domain s user id e h = rw h refl
unauthorized u (migrate node) s user id e h = rw h refl
unauthorized u (set_domain domain) s user id e h = rw h refl
unauthorized u (block_regions asked) s user id e h = rw h refl
unauthorized u (set_srv route_id label) s user id e h = rw h refl
unauthorized u (set_routes routes) s user id e h = rw h refl
unauthorized u (edit req) s user id e h = rw h refl

-- A request on a tunnel that is not there is answered 404, and one by a caller who neither owns the
-- tunnel nor is an administrator 403; it changes nothing and sends no node anything.
pub perform_guarded :
    (u : Unicode) (c : Command) (s : Site) (user : AuthUser) (id : ℕ)
    → (get id s.db.tunnels ≡ none → perform u c s user id ≡ refuse s 404 no_such_tunnel)
      × ((t : TunnelEntry)
          → get id s.db.tunnels ≡ some t
          → t.owner_id ≢ user.user_id
          → user.role ≢ codes "admin"
          → perform u c s user id ≡ refuse s 403 not_your_tunnel)
unfolding authorize_tunnel
perform_guarded u c s user id = (
  λ q. unauthorized u c s user id (404, no_such_tunnel) (ground (arith, q)),
  λ t q o r.
      unauthorized u c s user id (403, not_your_tunnel)
        (ground (arith, q, o, beq_iff user.role (codes "admin"), r)),
)
