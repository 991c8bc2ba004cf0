-- ===== src/Control/Handlers/Bounds.antt =====
-- The bounds that natforge-backend/src/handlers/tunnels.rs puts on what it stores: refused countries,
-- service labels, route ids, and what an edit stores before it is refused.
use natforge_thesis.Prelude.{
  ℕ, ◌≡◌, ◌≢◌, ◌+◌, ◌≤◌, ◌^◌, refl, sym, subst, true, false, ◌||◌, Bytes, beq, List, [], ◌∷◌,
  Option, none, some, All, get, get-insert, beq_iff, leb, ◌*◌, if◌then◌else◌, nat_eq, length,
  is_empty, arith, Bool-cases, inl, inr, Result, ok, err, ltb, ◌==◌,
}
use natforge_thesis.Node.Text.{trim, to_ascii_lowercase}
use natforge_thesis.Control.Names.{is_alnum, valid_subdomain}
use natforge_thesis.Control.Ports.{TunnelEntry}
use natforge_thesis.Control.Ports.Services.{before}
use natforge_thesis.Control.Tunnels.{rename_tunnel}
use natforge_thesis.Control.Site.{Site, AuthUser, Refusal, invalid_name, authorize_tunnel, with_db}
use natforge_thesis.Control.Handlers.{
  Unicode, is_code, insert_code, country_codes, set_tunnel_region_blocks, keep_label,
  skip_underscores, none_if_empty, srv_label, to_i16, put_route_srv,
}
use natforge_thesis.Control.Handlers.Edit.{
  EditTunnelReq, char_count, edit_name, edit_labels, edit_subdomain, edit_tunnel,
}

-- In strictly ascending order.
abbrev pub Above : Bytes → List Bytes → Type 0
Above c [] = Unit {0}
Above c (d ∷ ds) = (before c d ≡ true) × (c ≢ d)

abbrev pub Ascending : List Bytes → Type 0
Ascending [] = Unit {0}
Ascending (c ∷ ds) = Above c ds × Ascending ds

before_total : (a b : Bytes) → before a b ≡ false → before b a ≡ true
before_total [] b e = ground (arith, e)
before_total (x ∷ a) [] e = refl
before_total (x ∷ a) (y ∷ b) e = ground (arith, e, before_total a b)

insert_code-Above :
    (c d : Bytes) (ds : List Bytes)
    → before d c ≡ true
    → d ≢ c
    → Above d ds
    → Above d (insert_code c ds)
unfolding insert_code
insert_code-Above c d [] y n a = (y, n)
insert_code-Above c d (x ∷ ds) y n a = elim (Bool-cases (beq c x)) [
  | inl z ↦ rw z a
  | inr z ↦ elim (Bool-cases (before c x)) [ inl w ↦ rw z (rw w (y, n)) | inr w ↦ rw z (rw w a) ]
]

insert_code-Ascending : (c : Bytes) (ds : List Bytes) → Ascending ds → Ascending (insert_code c ds)
unfolding insert_code
insert_code-Ascending c [] a = (tt, tt)
insert_code-Ascending c (d ∷ ds) a = elim (Bool-cases (beq c d)) [
  | inl z ↦ rw z a
  | inr z ↦
      let differ : c ≢ d = ground (arith, z, beq_iff c d) in
      elim (Bool-cases (before c d)) [
        | inl w ↦ rw z (rw w ((w, differ), a))
        | inr w ↦ rw z (
            rw w (
              insert_code-Above c d ds (before_total c d w) (λ e. differ (sym e)) a.0,
              insert_code-Ascending c ds a.1,
            ))
      ]
]

abbrev pub IsCode : Bytes → Type 0
IsCode c = is_code c ≡ true

insert_code-All :
    (c : Bytes) (ds : List Bytes) → IsCode c → All IsCode ds → All IsCode (insert_code c ds)
unfolding insert_code
insert_code-All c [] h a = (h, tt)
insert_code-All c (d ∷ ds) h a = elim (Bool-cases (beq c d)) [
  | inl z ↦ rw z a
  | inr z ↦ elim (Bool-cases (before c d)) [
    | inl w ↦ rw z (rw w (h, a))
    | inr w ↦ rw z (rw w (a.0, insert_code-All c ds h a.1))
  ]
]

country_codes-ordered :
    (f : Bytes → Bytes) (cs : List Bytes)
    → Ascending (country_codes f cs) × All IsCode (country_codes f cs)
unfolding country_codes
country_codes-ordered f [] = (tt, tt)
country_codes-ordered f (c ∷ cs) =
    let (a, w) = country_codes-ordered f cs in
    let upper = f (trim c) in
    elim (Bool-cases (is_code upper)) [
      | inl y ↦ rw y (insert_code-Ascending upper _ a, insert_code-All upper _ y w)
      | inr y ↦ rw y (a, w)
    ]

-- The countries that a request has a tunnel refuse are stored as at most a hundred different codes of
-- two letters in ascending order.
pub set_tunnel_region_blocks_stored :
    (u : Unicode) (s : Site) (user : AuthUser) (id : ℕ) (asked kept : List Bytes)
    → (set_tunnel_region_blocks u s user id asked).answer ≡ ok kept
    → (get id (set_tunnel_region_blocks u s user id asked).site.tunnel_region_blocks ≡ some kept)
      × (length kept ≤ 100)
      × Ascending kept
      × All IsCode kept
unfolding set_tunnel_region_blocks
set_tunnel_region_blocks_stored u s user id asked kept e =
    by_owner (authorize_tunnel s user id) refl
  where
    codes : List Bytes
    codes = country_codes u.to_uppercase asked

    by_owner :
        (r : Result Refusal TunnelEntry)
        → authorize_tunnel s user id ≡ r
        → (get id (set_tunnel_region_blocks u s user id asked).site.tunnel_region_blocks
            ≡ some kept)
          × (length kept ≤ 100)
          × Ascending kept
          × All IsCode kept
    by_owner (err x) q = ground (arith, e, q)
    by_owner (ok t) q =
        let fits : ltb 100 (length codes) ≡ false = ground (arith, e, q) in
        let is : codes ≡ kept = ground (arith, e, q, fits) in
        let (a, w) = country_codes-ordered u.to_uppercase asked in
        (
          ground (arith, q, fits, is, get-insert id id codes s.tunnel_region_blocks),
          ground (arith, fits, is),
          subst Ascending is a,
          subst (All IsCode) is w,
        )

abbrev pub IsLabel : ℕ → Type 0
IsLabel c = (is_alnum c || c == b'-') ≡ true

keep_label-bounded :
    (kept : ℕ) (cs : Bytes)
    → kept ≤ 30
    → (length (keep_label kept cs) + kept ≤ 30) × All IsLabel (keep_label kept cs)
unfolding keep_label
keep_label-bounded kept [] b = (omega arith, tt)
keep_label-bounded kept (c ∷ cs) b = elim (Bool-cases (leb 30 kept)) [
  | inl y ↦ rw y (omega arith, tt)
  | inr y ↦ elim (Bool-cases (is_alnum c || c == b'-')) [
    | inl z ↦
        let (n, a) = keep_label-bounded (kept + 1) cs (ground (arith, b, y)) in
        rw y (rw z (omega arith, (z, a)))
    | inr z ↦ let (n, a) = keep_label-bounded kept cs b in rw y (rw z (n, a))
  ]
]

-- The service label that is stored for a route has from one to thirty characters, each a lowercase
-- letter, a digit or a hyphen.
pub srv_label_bounded :
    (asked : Option Bytes) (label : Bytes)
    → srv_label asked ≡ some label
    → (1 ≤ length label) × (length label ≤ 30) × All IsLabel label
unfolding srv_label
srv_label_bounded none label e = ground (arith, e)
srv_label_bounded (some s) label e =
    by_kept _ e
      (keep_label-bounded 0 (to_ascii_lowercase (skip_underscores (trim s))) (omega arith))
  where
    by_kept :
        (bs : Bytes)
        → none_if_empty bs ≡ some label
        → (length bs + 0 ≤ 30) × All IsLabel bs
        → (1 ≤ length label) × (length label ≤ 30) × All IsLabel label
    by_kept [] q b = ground (arith, q)
    by_kept (c ∷ cs) q b =
        let is : c ∷ cs ≡ label = ground (arith, q) in
        subst (λ l. (1 ≤ length l) × (length l ≤ 30) × All IsLabel l) is
          (omega arith, omega arith, b.1)

to_i16_wraps : (r k : ℕ) → to_i16 (r + k * 2 ^ 16) ≡ to_i16 r
to_i16_wraps r k = omega arith

-- The route id of a request for a service label counts modulo 65536: an id beyond it changes the route
-- that has its remainder, as a request for that route would.
pub put_route_srv_wraps :
    (s : Site) (user : AuthUser) (id route_id k : ℕ) (asked : Option Bytes)
    → put_route_srv s user id (route_id + k * 2 ^ 16) asked ≡ put_route_srv s user id route_id asked
unfolding put_route_srv
put_route_srv_wraps s user id route_id k asked = rw (to_i16_wraps route_id k) refl

-- An edit that gives a tunnel a name of at most sixty characters and, without label edits, a subdomain
-- that is not valid is refused, and the name is stored all the same.
pub edit_tunnel_kept_name :
    (u : Unicode) (s : Site) (user : AuthUser) (id : ℕ) (req : EditTunnelReq) (t : TunnelEntry)
    (name want : Bytes)
    → authorize_tunnel s user id ≡ ok t
    → req.name ≡ some name
    → char_count (trim name) ≤ 60
    → req.route_labels ≡ []
    → req.subdomain ≡ some want
    → u.to_lowercase (trim want) ≢ t.subdomain
    → valid_subdomain (u.to_lowercase (trim want)) ≡ false
    → edit_tunnel u s user id req ≡ record {
      site =
          with_db s
            (rename_tunnel id (if is_empty (trim name) then none else some (trim name)) s.db);
      sent = [];
      answer = err (400, invalid_name);
    }
unfolding edit_tunnel edit_name edit_labels edit_subdomain
edit_tunnel_kept_name u s user id req t name want a n c l w d v =
    ground (arith, a, n, c, l, w, v, beq_iff (u.to_lowercase (trim want)) t.subdomain, d)
