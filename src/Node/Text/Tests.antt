-- ===== src/Node/Text/Tests.antt =====
-- The text functions of natforge-node/src/tunnel/shared.rs on its unit tests' inputs.
use natforge_thesis.Prelude.{◌≡◌, refl, codes, [], ◌∷◌, some}
use natforge_thesis.Node.Text.{subdomain_of, trim, split_crlf, find_subsequence}

with_port : subdomain_of (codes "duck-a1b2.natforge.com:8080") ≡ codes "duck-a1b2"
unfolding subdomain_of
with_port = refl

capitals : subdomain_of (codes "X.Y.Z") ≡ codes "x"
unfolding subdomain_of
capitals = refl

solo : subdomain_of (codes "solo") ≡ codes "solo"
unfolding subdomain_of
solo = refl

trims : trim (codes "  x.y z \t") ≡ codes "x.y z"
unfolding trim
trims = refl

lines : split_crlf (codes "a\r\n\r\r\nb\r\n") ≡ codes "a" ∷ codes "\r" ∷ codes "b" ∷ [] ∷ []
unfolding split_crlf
lines = refl

finds : find_subsequence (codes "ab\r\n\r\ncd") (codes "\r\n\r\n") ≡ some 2
unfolding find_subsequence
finds = refl
