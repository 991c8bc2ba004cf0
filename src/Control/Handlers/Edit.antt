-- ===== src/Control/Handlers/Edit.antt =====
-- `edit_tunnel` of natforge-backend/src/handlers/tunnels.rs: the name, the labels and the subdomain, each
-- stored before the next is looked at.
use natforge_thesis.Prelude.{
  ℕ, ◌+◌, Bool, true, false, not, ◌&&◌, Bytes, beq, List, [], ◌∷◌, ◌++◌, Option, none, some,
  is_empty, leb, ltb, if◌then◌else◌, Result, ok, err,
}
use natforge_thesis.Node.Text.{trim}
use natforge_thesis.Control.Names.{valid_subdomain}
use natforge_thesis.Control.Ports.{TunnelEntry}
use natforge_thesis.Control.Ports.Services.{trimmed}
use natforge_thesis.Control.Reserve.{is_reserved_name}
use natforge_thesis.Control.Tunnels.{
  rename_tunnel, set_tunnel_subdomain, subdomain_in_use, update_route_label,
}
use natforge_thesis.Control.Site.{
  Site, AuthUser, name_too_long, label_too_long, reserved_name, name_in_use, invalid_name, Refusal,
  Done, refuse, checked, authorize_tunnel, signal_node_stop, with_db,
}
use natforge_thesis.Control.Handlers.{Unicode, signal_if_online}

pub record RouteLabelEdit : Type 0 where
  pub route_id : ℕ
  pub label : Option Bytes

pub record EditTunnelReq : Type 0 where
  pub name : Option Bytes
  pub subdomain : Option Bytes
  pub route_labels : List RouteLabelEdit

-- `chars().count()` of UTF-8: the bytes that continue no character.
unfoldable pub char_count : Bytes → ℕ
char_count [] = 0
char_count (c ∷ cs) = let n = char_count cs in if leb 128 c && ltb c 192 then n else n + 1

-- A part that succeeded goes on from the tables that it left.
abbrev pub go_on {ℓ κ} : {A : Type ℓ} {B : Type κ} → Done A → (Site → A → Done B) → Done B
go_on d f = elim d.answer [
  | err e ↦ record { site = d.site; sent = d.sent; answer = err e }
  | ok a ↦ let next = f d.site a in record next { sent = d.sent ++ next.sent }
]

abbrev pub done {ℓ} : {A : Type ℓ} → Site → A → Done A
done s a = record { site = s; sent = []; answer = ok a }

unfoldable pub edit_name : Site → ℕ → Option Bytes → Done (Unit {0})
unfolding char_count
edit_name s id none = done s tt
edit_name s id (some raw) =
    let t = trim raw in
    if ltb 60 (char_count t)
    then refuse s 400 name_too_long
    else done (with_db s (rename_tunnel id (if is_empty t then none else some t) s.db)) tt

abbrev pub is_long : Option Bytes → Bool
is_long none = false
is_long (some l) = ltb 40 (char_count l)

unfoldable pub edit_labels : Site → ℕ → List RouteLabelEdit → Done (Unit {0})
unfolding char_count
edit_labels s id [] = done s tt
edit_labels s id (e ∷ es) =
    let label = trimmed e.label in
    let later = edit_labels (with_db s (update_route_label id e.route_id label s.db).1) id es in
    if is_long label then refuse s 400 label_too_long else later

abbrev pub rename_to : Site → ℕ → TunnelEntry → Bytes → Done Bool
rename_to s id t want =
    let s' = with_db s (set_tunnel_subdomain id want s.db) in
    record { site = s'; sent = signal_if_online s' id t.subdomain t.node_id; answer = ok true }

abbrev pub check_name : Site → ℕ → Bytes → Result Refusal (Unit {0})
check_name s id want =
    if not (valid_subdomain want)
    then err (400, invalid_name)
    else if is_reserved_name want s.reserved_subdomains
    then err (409, reserved_name)
    else if subdomain_in_use want id s.db.tunnels
    then err (409, name_in_use)
    else ok tt

unfoldable pub edit_subdomain : Unicode → Site → ℕ → TunnelEntry → Option Bytes → Done Bool
unfolding signal_node_stop
edit_subdomain u s id t none = done s false
edit_subdomain u s id t (some raw) =
    let want = u.to_lowercase (trim raw) in
    if beq want t.subdomain
    then done s false
    else checked s (check_name s id want) λ _. rename_to s id t want

unfoldable pub edit_tunnel : Unicode → Site → AuthUser → ℕ → EditTunnelReq → Done Bool
unfolding authorize_tunnel edit_name edit_labels edit_subdomain
edit_tunnel u s user id req = checked s (authorize_tunnel s user id) λ t.
    go_on (edit_name s id req.name) λ s1 _.
      go_on (edit_labels s1 id req.route_labels) λ s2 _. edit_subdomain u s2 id t req.subdomain
