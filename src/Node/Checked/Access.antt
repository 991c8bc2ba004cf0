-- ===== src/Node/Checked/Access.antt =====
-- When the checked accesses of natforge-node/src/tunnel/shared.rs succeed, and what they read.
use natforge_thesis.Prelude.{
  ℕ, zero, suc, ◌+◌, ◌-◌, ◌*◌, ◌≤◌, ◌<◌, ◌≡◌, refl, ap, ◌∙◌, Bytes, [], ◌∷◌, ◌++◌, some, length,
  get_elem?, take, drop, le→leb, length-append, length-take, length-drop, take-append, drop-append,
  arith,
}
use natforge_thesis.Node.Checked.{slice, slice_from, be16_at}

pub get_elem?_in : (b : Bytes) (i : ℕ) → i < length b → (x : ℕ) × (get_elem? b i ≡ some x)
get_elem?_in [] i h = absurd (omega arith)
get_elem?_in (x ∷ xs) zero h = (x, refl)
get_elem?_in (x ∷ xs) (suc i) h = get_elem?_in xs i (omega arith)

pub be16_at_in : (p : ℕ) (b : Bytes) → p + 2 ≤ length b → (n : ℕ) × (be16_at p b ≡ some n)
unfolding be16_at
be16_at_in p b h =
    let (hi, eh) = get_elem?_in b p (omega arith) in
    let (lo, el) = get_elem?_in b (p + 1) (omega arith) in (hi * 256 + lo, rw (eh, el))

pub slice_in :
    (lo hi : ℕ) (b : Bytes)
    → lo ≤ hi
    → hi ≤ length b
    → slice lo hi b ≡ some (take (hi - lo) (drop lo b))
unfolding slice
slice_in lo hi b h k = rw (le→leb lo hi h, le→leb hi (length b) k)

pub slice_from_in : (lo : ℕ) (b : Bytes) → lo ≤ length b → slice_from lo b ≡ some (drop lo b)
unfolding slice_from
slice_from_in lo b h = rw (le→leb lo (length b) h)

pub length-slice :
    (lo hi : ℕ) (b : Bytes) → hi ≤ length b → length (take (hi - lo) (drop lo b)) ≡ hi - lo
length-slice lo hi b h = omega (arith, length-take (hi - lo) (drop lo b), length-drop lo b)

-- Reading behind a known prefix.
pub get_elem?-append :
    (pre ys : Bytes) (i p : ℕ) → p ≡ length pre + i → get_elem? (pre ++ ys) p ≡ get_elem? ys i
get_elem?-append [] ys i p h = let e : p ≡ i = omega arith in ap (get_elem? ys) e
get_elem?-append (x ∷ pre) ys i zero h = absurd (omega arith)
get_elem?-append (x ∷ pre) ys i (suc p) h = get_elem?-append pre ys i p (omega arith)

pub be16_at-append :
    (pre : Bytes) (hi lo : ℕ) (ys : Bytes) (p : ℕ)
    → p ≡ length pre
    → be16_at p (pre ++ hi ∷ lo ∷ ys) ≡ some (hi * 256 + lo)
unfolding be16_at
be16_at-append pre hi lo ys p h = rw (
  get_elem?-append pre (hi ∷ lo ∷ ys) 0 p (omega arith),
  get_elem?-append pre (hi ∷ lo ∷ ys) 1 (p + 1) (omega arith),
)

pub slice-append :
    (pre xs ys : Bytes) (lo hi : ℕ)
    → lo ≡ length pre
    → hi ≡ lo + length xs
    → slice lo hi (pre ++ (xs ++ ys)) ≡ some xs
slice-append pre xs ys lo hi h k =
    slice_in lo hi (pre ++ (xs ++ ys)) (omega arith)
      (omega (arith, length-append pre (xs ++ ys), length-append xs ys))
    ∙ ap (λ b. some (take (hi - lo) b)) (drop-append lo pre (xs ++ ys) (omega arith))
    ∙ ap some (take-append (hi - lo) xs ys (omega arith))
