-- ===== src/Node/State/Routing.antt =====
-- The country rule of natforge-node/src/state.rs.
use natforge_thesis.Prelude.{
  ℕ, ◌≡◌, ◌↔◌, ◌⊎◌, refl, true, false, Bytes, List, [], ◌∷◌, none, some, beq_iff, get, nat_eq,
  arith,
}
use natforge_thesis.Node.State.{CoreState, lists_country, own_list, is_country_blocked}

-- `c` is one of the items.
abbrev pub Listed : Bytes → List Bytes → Type 0
Listed c [] = ⊥
Listed c (d ∷ ds) = (d ≡ c) ⊎ Listed c ds

lists_country_iff : (c : Bytes) (cs : List Bytes) → (lists_country c cs ≡ true) ↔ Listed c cs
unfolding lists_country
lists_country_iff c [] = ground arith
lists_country_iff c (d ∷ ds) = ground (arith, beq_iff d c, lists_country_iff c ds)

-- A connection from a known country is refused exactly when the platform's list or the tunnel's own
-- list holds the country, and one from an unknown country never is.
pub is_country_blocked_iff :
    (s : CoreState) (tunnel_id : ℕ) (code : Bytes)
    → ((is_country_blocked s tunnel_id (some code) ≡ true) ↔ (
        Listed code s.blocked_regions
        ⊎ Listed code (own_list (get tunnel_id s.tunnel_region_blocks))))
      × (is_country_blocked s tunnel_id none ≡ false)
unfolding is_country_blocked
is_country_blocked_iff s tunnel_id code =
    let own = own_list (get tunnel_id s.tunnel_region_blocks) in
    (ground (arith, lists_country_iff code s.blocked_regions, lists_country_iff code own), refl)
