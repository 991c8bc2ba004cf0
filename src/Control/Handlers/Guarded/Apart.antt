-- ===== src/Control/Handlers/Guarded/Apart.antt =====
-- What it is to leave every other tunnel alone, and how it goes through a handler's checks.
use natforge_thesis.Prelude.{
  ℕ, ◌≡◌, ◌≢◌, refl, ◌∙◌, Bool, true, false, get, nat_eq, Result, ok, err, if◌then◌else◌,
}
use natforge_thesis.Control.Ports.{Db}
use natforge_thesis.Control.Tunnels.Elsewhere.{Elsewhere, Elsewhere-same, Elsewhere-trans}
use natforge_thesis.Control.Site.{Site, Refusal, Done, checked, with_db}
use natforge_thesis.Control.Handlers.Edit.{go_on}

-- Every other tunnel keeps its entry, routes, ports and refused countries; users, devices and nodes
-- stay as they are.
pub record Alone (id : ℕ) (s s' : Site) : Type 0 where
  pub tables : Elsewhere id s.db s'.db
  pub blocks : (v : ℕ) → v ≢ id → get v s'.tunnel_region_blocks ≡ get v s.tunnel_region_blocks
  pub users : s'.users ≡ s.users
  pub devices : s'.devices ≡ s.devices
  pub nodes : s'.nodes ≡ s.nodes

pub Alone-db : (id : ℕ) (s : Site) (db : Db) → Elsewhere id s.db db → Alone id s (with_db s db)
Alone-db id s db e = record {
  tables = e;
  blocks = λ v d. refl;
  users = refl;
  devices = refl;
  nodes = refl;
}

pub Alone-same : (id : ℕ) (s : Site) → Alone id s s
Alone-same id s = Alone-db id s s.db (Elsewhere-same id s.db)

pub Alone-trans : (id : ℕ) (a b c : Site) → Alone id a b → Alone id b c → Alone id a c
Alone-trans id a b c x y = record {
  tables = Elsewhere-trans id a.db b.db c.db x.tables y.tables;
  blocks = λ v d. y.blocks v d ∙ x.blocks v d;
  users = y.users ∙ x.users;
  devices = y.devices ∙ x.devices;
  nodes = y.nodes ∙ x.nodes;
}

pub checked-Alone {ℓ κ} :
    {A : Type ℓ} {B : Type κ} (id : ℕ) (s : Site) (r : Result Refusal A) (f : A → Done B)
    → ((a : A) → Alone id s (f a).site)
    → Alone id s (checked s r f).site
checked-Alone id s (ok a) f h = h a
checked-Alone id s (err e) f h = Alone-same id s

pub go_on-Alone {ℓ κ} :
    {A : Type ℓ} {B : Type κ} (id : ℕ) (s : Site) (d : Done A) (f : Site → A → Done B)
    → Alone id s d.site
    → ((s' : Site) (a : A) → Alone id s s' → Alone id s (f s' a).site)
    → Alone id s (go_on d f).site
go_on-Alone {A = A} {B = B} id s d f h g = by_answer d.answer
  where
    by_answer : (r : Result Refusal A) → Alone id s (go_on (record d { answer = r }) f).site
    by_answer (ok a) = g d.site a h
    by_answer (err e) = h

pub if-Alone {ℓ} :
    {A : Type ℓ} (id : ℕ) (s : Site) (b : Bool) (x y : Done A)
    → Alone id s x.site
    → Alone id s y.site
    → Alone id s (if b then x else y).site
if-Alone id s true x y h g = h
if-Alone id s false x y h g = g
