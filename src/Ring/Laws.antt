-- ===== src/Ring/Laws.antt =====
-- What the operations of a ring do to its contents.
use wos.Prelude.{
  ℕ, zero, suc, ◌+◌, ◌-◌, ◌<◌, ◌≡◌, refl, sym, ap, ◌∙◌, ◌⊎◌, inl, inr, List, [], ◌∷◌, ◌++◌, arith,
  length, append-nil, append_assoc, Bool-cases, ltb, min,
}
use wos.Ring.{Ring, next, put, advance, fill, drain, window, contents, Inv}
use wos.Ring.Window.{next_cases, window-update, length-window}

module _ {ℓ} {A : Type ℓ} (cap : ℕ) where
  pub put-Inv : (a : A) (r : Ring A) → Inv cap r → r.count < cap → Inv cap (put cap a r)
  unfolding put
  put-Inv a r v h = ground (arith, next_cases cap r.head v.head_in)

  pub advance-Inv : (r : Ring A) → Inv cap r → 0 < r.count → Inv cap (advance cap r)
  unfolding advance
  advance-Inv r v h = ground (arith, next_cases cap r.tail v.tail_in)

  pub contents-put :
      (a : A) (r : Ring A)
      → Inv cap r
      → r.count < cap
      → contents cap (put cap a r) ≡ contents cap r ++ a ∷ []
  unfolding contents put
  contents-put a r v h =
      let grown : r.count + 1 ≡ suc r.count = omega arith in
      rw grown (window-update cap r.count r.tail r.head a r.buf v.tail_in v.head_in h v.meets)

  pub length-contents : (r : Ring A) → length (contents cap r) ≡ r.count
  unfolding contents
  length-contents r = length-window cap r.count r.tail r.buf

  window-advance :
      (n t : ℕ) (buf : ℕ → A)
      → 0 < n
      → window cap n t buf ≡ buf t ∷ window cap (n - 1) (next cap t) buf
  unfolding window
  window-advance zero t buf h = elim h [ ]
  window-advance (suc n) t buf h = let same : suc n - 1 ≡ n = omega arith in rw same

  pub contents-advance :
      (r : Ring A) → 0 < r.count → contents cap r ≡ r.buf r.tail ∷ contents cap (advance cap r)
  unfolding contents advance
  contents-advance r h = window-advance r.count r.tail r.buf h

-- The outcome of the filling loop: a prefix of the input went in, in order, and the loop stopped
-- only at the end of the input or at a full ring.
pub record Fills {ℓ} {A : Type ℓ} (cap : ℕ) (xs : List A) (r : Ring A) (rest : List A) (q : Ring A)
    : Type ℓ where
  pub taken : List A
  pub split : xs ≡ taken ++ rest
  pub stored : contents cap q ≡ contents cap r ++ taken
  pub valid : Inv cap q
  pub stopped : (rest ≡ []) ⊎ (q.count ≡ cap)

module _ {ℓ} {A : Type ℓ} (cap : ℕ) where
  pub fill-Fills :
      (xs : List A) (r : Ring A) → Inv cap r → Fills cap xs r (fill cap xs r).0 (fill cap xs r).1
  unfolding fill
  fill-Fills [] r v = record {
    taken = [];
    split = refl;
    stored = sym (append-nil _);
    valid = v;
    stopped = inl refl;
  }
  fill-Fills (x ∷ xs) r v = elim (Bool-cases (ltb r.count cap)) [
    | inl room ↦ rw room (
        let rest = fill-Fills xs (put cap x r) (put-Inv cap x r v (ground arith)) in
        record {
          taken = x ∷ rest.taken;
          split = ap (◌∷◌ x) rest.split;
          stored =
              rest.stored
              ∙ rw (contents-put cap x r v (ground arith)) (append_assoc _ (x ∷ []) rest.taken);
          valid = rest.valid;
          stopped = rest.stopped;
        })
    | inr full ↦ rw full (record {
      taken = [];
      split = refl;
      stored = sym (append-nil _);
      valid = v;
      stopped = inr (ground (arith, v.count_in));
    })
  ]

  -- The loop takes the first entries, as many as are asked for and there are.
  pub drain-contents :
      (n : ℕ) (r : Ring A)
      → Inv cap r
      → (contents cap r ≡ (drain cap n r).0 ++ contents cap (drain cap n r).1)
        × (length (drain cap n r).0 ≡ min n r.count)
        × Inv cap (drain cap n r).1
        × ((drain cap n r).1.count ≡ r.count - n)
  unfolding drain
  drain-contents zero r v = (refl, omega arith, v, omega arith)
  drain-contents (suc n) r v = elim (Bool-cases (ltb 0 r.count)) [
    | inl some_left ↦ rw some_left (
        let (split, len, valid, left) =
          drain-contents n (advance cap r) (advance-Inv cap r v (ground arith)) in
        (
          contents-advance cap r (ground arith) ∙ ap (◌∷◌ (r.buf r.tail)) split,
          ground (arith, len),
          valid,
          ground (arith, left),
        ))
    | inr none_left ↦ rw none_left (refl, ground arith, v, ground arith)
  ]
