-- ===== src/Control/Handlers/Guarded/Edits.antt =====
-- What `edit_tunnel` of natforge-backend/src/handlers/tunnels.rs leaves alone.
use natforge_thesis.Prelude.{ℕ, Bool, false, Bytes, List, [], ◌∷◌, Option, none, some, nat_eq, beq}
use natforge_thesis.Node.Text.{trim}
use natforge_thesis.Control.Ports.{TunnelEntry}
use natforge_thesis.Control.Ports.Services.{trimmed}
use natforge_thesis.Control.Tunnels.{rename_tunnel, set_tunnel_subdomain, update_route_label}
use natforge_thesis.Control.Tunnels.Elsewhere.{with_entry-Elsewhere, with_row-Elsewhere}
use natforge_thesis.Control.Site.{Site, AuthUser, Done, checked, authorize_tunnel, with_db}
use natforge_thesis.Control.Handlers.{Unicode}
use natforge_thesis.Control.Handlers.Edit.{
  RouteLabelEdit, EditTunnelReq, go_on, done, check_name, edit_name, edit_labels, rename_to,
  edit_subdomain, edit_tunnel,
}
use natforge_thesis.Control.Handlers.Guarded.Apart.{
  Alone, Alone-db, Alone-same, Alone-trans, checked-Alone, go_on-Alone, if-Alone,
}

name-Alone : (s : Site) (id : ℕ) (name : Option Bytes) → Alone id s (edit_name s id name).site
unfolding edit_name rename_tunnel
name-Alone s id none = Alone-same id s
name-Alone s id (some raw) = search (if-Alone, Alone-same id s, Alone-db id s, with_entry-Elsewhere)

labels-Alone :
    (s : Site) (id : ℕ) (es : List RouteLabelEdit) → Alone id s (edit_labels s id es).site
unfolding edit_labels update_route_label
labels-Alone s id [] = Alone-same id s
labels-Alone s id (e ∷ es) =
    let db = (update_route_label id e.route_id (trimmed e.label) s.db).1 in
    let one =
      Alone-db id s db
        (with_row-Elsewhere id e.route_id (λ r. record r { label = trimmed e.label }) s.db) in
    if-Alone id s _ _ _ (Alone-same id s)
      (Alone-trans id s (with_db s db) _ one (labels-Alone (with_db s db) id es))

subdomain-Alone :
    (u : Unicode) (s : Site) (id : ℕ) (t : TunnelEntry) (asked : Option Bytes)
    → Alone id s (edit_subdomain u s id t asked).site
unfolding edit_subdomain set_tunnel_subdomain
subdomain-Alone u s id t none = Alone-same id s
subdomain-Alone u s id t (some raw) =
    let want = u.to_lowercase (trim raw) in
    if-Alone id s (beq want t.subdomain) (done s false)
      (checked s (check_name s id want) λ _. rename_to s id t want) (Alone-same id s)
      (checked-Alone id s (check_name s id want) _
        λ _. Alone-db id s _ (with_entry-Elsewhere id _ s.db))

pub edit-Alone :
    (u : Unicode) (s : Site) (user : AuthUser) (id : ℕ) (req : EditTunnelReq)
    → Alone id s (edit_tunnel u s user id req).site
unfolding edit_tunnel
edit-Alone u s user id req = checked-Alone id s (authorize_tunnel s user id) _ λ t.
    go_on-Alone id s (edit_name s id req.name) (after_name t) (name-Alone s id req.name) λ s1 _ h.
      go_on-Alone id s (edit_labels s1 id req.route_labels) (after_labels t)
        (Alone-trans id s s1 _ h (labels-Alone s1 id req.route_labels))
        λ s2 _ g. Alone-trans id s s2 _ g (subdomain-Alone u s2 id t req.subdomain)
  where
    after_labels : TunnelEntry → Site → Unit {0} → Done Bool
    after_labels t s2 _ = edit_subdomain u s2 id t req.subdomain

    after_name : TunnelEntry → Site → Unit {0} → Done Bool
    after_name t s1 _ = go_on (edit_labels s1 id req.route_labels) (after_labels t)
