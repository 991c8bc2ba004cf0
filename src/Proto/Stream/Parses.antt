-- ===== src/Proto/Stream/Parses.antt =====
-- What it is for a reader to parse exactly one byte string, and how such readers compose. The
-- stream functions of natforge-proto/src/lib.rs are put together from these.
use natforge_thesis.Prelude.{
  ℕ, zero, suc, ◌-◌, ◌≤◌, ◌<◌, ◌≡◌, refl, ap, ◌∙◌, ◌⊎◌, inl, inr, Bool, true, false, Bytes, [], ◌∷◌,
  ◌++◌, length, take, leb, leb→le, le→leb, ok, err, arith, Bool-cases, append_assoc, length-append,
  length-take, take-append, drop-append,
}
use natforge_thesis.Proto.Stream.{
  Reader, Read, IoError, end_error, read_exact, ◌>>=◌, ◌>>◌, pure, require,
}

abbrev pub reader : Bytes → Bool → Reader
reader bs faulty = record { pending = bs; faulty = faulty }

-- `m` reads the bytes `xs`, no more and no less, as the value `a`: whatever follows them is left,
-- and a stream that ends before their last byte gives the end's error.
pub record Parses {A : Type 0} (m : Read A) (xs : Bytes) (a : A) : Type 0 where
  pub complete : (rest : Bytes) (f : Bool) → m (reader (xs ++ rest) f) ≡ ok (a, reader rest f)
  pub cut : (n : ℕ) (f : Bool) → n < length xs → m (reader (take n xs) f) ≡ err (end_error f)

pub Parses-read_exact : (n : ℕ) (xs : Bytes) → length xs ≡ n → Parses (read_exact n) xs xs
unfolding read_exact
Parses-read_exact n xs h = record {
  complete = λ rest f. rw (
    le→leb n (length (xs ++ rest)) (omega (arith, length-append xs rest)),
    take-append n xs rest h,
    drop-append n xs rest h,
  );
  cut = λ k f lt. short k f lt (Bool-cases (leb n (length (take k xs))));
}
  where
    short :
        (k : ℕ) (f : Bool)
        → k < length xs
        → (leb n (length (take k xs)) ≡ true) ⊎ (leb n (length (take k xs)) ≡ false)
        → read_exact n (reader (take k xs) f) ≡ err (end_error f)
    short k f lt (inl e) = absurd (omega (arith, leb→le _ _ e, length-take k xs))
    short k f lt (inr e) = rw e

take-append_le : (n : ℕ) (xs ys : Bytes) → n ≤ length xs → take n (xs ++ ys) ≡ take n xs
take-append_le zero xs ys h = refl
take-append_le (suc n) [] ys h = absurd (omega arith)
take-append_le (suc n) (x ∷ xs) ys h = ap (◌∷◌ x) (take-append_le n xs ys (omega arith))

take-append_ge :
    (n : ℕ) (xs ys : Bytes) → length xs ≤ n → take n (xs ++ ys) ≡ xs ++ take (n - length xs) ys
take-append_ge n [] ys h = let e : n ≡ n - 0 = omega arith in ap (λ k. take k ys) e
take-append_ge zero (x ∷ xs) ys h = absurd (omega arith)
take-append_ge (suc n) (x ∷ xs) ys h = ap (◌∷◌ x) (
    take-append_ge n xs ys (omega arith)
    ∙ ap (λ k. xs ++ take k ys)
        (let e : n - length xs ≡ suc n - suc (length xs) = omega arith in e))

module _ {A B : Type 0} (m : Read A) (f : A → Read B) where
  pub bind_ok : {a : A} {r r' : Reader} → m r ≡ ok (a, r') → (m >>= f) r ≡ f a r'
  bind_ok e = ground (arith, e)

  pub bind_err : {e : IoError} {r : Reader} → m r ≡ err e → (m >>= f) r ≡ err e
  bind_err h = ground (arith, h)

  -- Two readers in sequence parse the joined bytes.
  pub Parses-bind :
      {xs ys : Bytes} {a : A} {b : B}
      → Parses m xs a
      → Parses (f a) ys b
      → Parses (m >>= f) (xs ++ ys) b
  Parses-bind {xs} {ys} {a} p q = record {
    complete = λ rest g.
        ap (λ bs. (m >>= f) (reader bs g)) (append_assoc xs ys rest)
        ∙ bind_ok (p.complete (ys ++ rest) g)
        ∙ q.complete rest g;
    cut = λ n g h. cut_at n g h (Bool-cases (leb (length xs) n));
  }
    where
      cut_at :
          (n : ℕ) (g : Bool)
          → n < length (xs ++ ys)
          → (leb (length xs) n ≡ true) ⊎ (leb (length xs) n ≡ false)
          → (m >>= f) (reader (take n (xs ++ ys)) g) ≡ err (end_error g)
      cut_at n g h (inl e) =
          ap (λ bs. (m >>= f) (reader bs g)) (take-append_ge n xs ys (leb→le _ _ e))
          ∙ bind_ok (p.complete (take (n - length xs) ys) g)
          ∙ q.cut (n - length xs) g (omega (arith, length-append xs ys, leb→le _ _ e))
      cut_at n g h (inr e) =
          let lt : n < length xs = ground (arith, e) in
          ap (λ bs. (m >>= f) (reader bs g)) (take-append_le n xs ys (omega arith))
          ∙ bind_err (p.cut n g lt)

pub Parses-pure : {A : Type 0} (a : A) → Parses (pure a) [] a
Parses-pure a = record { complete = λ rest f. refl; cut = λ n f h. absurd (omega arith) }

-- A check that passes reads nothing.
pub Parses-require :
    {B : Type 0} {c : Bool} (e : IoError) (k : Read B) {ys : Bytes} {b : B}
    → c ≡ true
    → Parses k ys b
    → Parses (require c e >> k) ys b
Parses-require e k h q = record {
  complete = λ rest f. rw h (q.complete rest f);
  cut = λ n f lt. rw h (q.cut n f lt);
}
