-- ===== src/Control/Names/Labels.antt =====
-- The names that natforge-backend hands out, as natforge-node routes them.
use natforge_thesis.Prelude.{◌≡◌, true, ◌||◌, Bytes, [], ◌∷◌, ◌++◌, All, ◌==◌, arith}
use natforge_thesis.Node.Text.{subdomain_of}
use natforge_thesis.Node.Text.Hosts.{IsLabelByte, subdomain_of-label}
use natforge_thesis.Control.Names.{every, is_alnum, valid_subdomain}

every-label : (s : Bytes) → every (λ c. is_alnum c || c == b'-') s ≡ true → All IsLabelByte s
every-label [] e = tt
every-label (c ∷ s) e = (ground (arith, e), every-label s (ground (arith, e)))

-- A subdomain that the control plane accepts is what the node routes the public host name by,
-- whatever the node's apex is.
pub valid_subdomain-routed :
    (s apex : Bytes) → valid_subdomain s ≡ true → subdomain_of (s ++ b'.' ∷ apex) ≡ s
unfolding valid_subdomain
valid_subdomain-routed [] apex e = ground (arith, e)
valid_subdomain-routed (c ∷ s) apex e =
    subdomain_of-label c s apex (every-label (c ∷ s) (ground (arith, e)))
