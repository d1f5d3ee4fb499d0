-- ===== src/User/Find.antt =====
-- kernel/fs/user.c: the search of the table.
use mathlib.Core.Option.{some-injective}
use wos.Prelude.{
  ℕ, zero, suc, ◌≡◌, ◌≢◌, refl, sym, subst, ◌∙◌, ap, inl, inr, List, [], ◌∷◌, Bool, true, false,
  Option, none, some, Bool-cases, set, get_elem?, arith,
}
use wos.User.Lines.{Entry}
use wos.User.{find_entry, shift}

-- What is found passes the test and stands at its place, and an entry that passes the test in its
-- stead is found there.
pub record Found (p : Entry → Bool) (es : List Entry) (i : ℕ) (e : Entry) : Type 0 where
  pub passes : p e ≡ true
  pub stands : get_elem? es i ≡ some e
  pub replaced : (e' : Entry) → p e' ≡ true → find_entry p (set es i e') ≡ some (i, e')

shift-some :
    (o : Option (ℕ × Entry)) (i : ℕ) (e : Entry)
    → shift o ≡ some (i, e)
    → (j : ℕ) × (o ≡ some (j, e)) × (i ≡ suc j)
shift-some none i e h = absurd (ground arith)
shift-some (some (j, x)) i e h = (j, ground arith, ground arith)

find-hit :
    (p : Entry → Bool) (x : Entry) (es : List Entry)
    → p x ≡ true
    → find_entry p (x ∷ es) ≡ some (0, x)
unfolding find_entry
find-hit p x es hit = rw hit

find-no :
    (p : Entry → Bool) (x : Entry) (es : List Entry)
    → p x ≡ false
    → find_entry p (x ∷ es) ≡ shift (find_entry p es)
unfolding find_entry
find-no p x es miss = rw miss

first-Found : (p : Entry → Bool) (x : Entry) (es : List Entry) → p x ≡ true → Found p (x ∷ es) 0 x
first-Found p x es hit = record {
  passes = hit;
  stands = refl;
  replaced = λ e' h. find-hit p e' es h;
}

later-Found :
    (p : Entry → Bool) (x : Entry) (es : List Entry) (j : ℕ) (e : Entry)
    → p x ≡ false
    → Found p es j e
    → Found p (x ∷ es) (suc j) e
later-Found p x es j e miss f = record {
  passes = f.passes;
  stands = f.stands;
  replaced = λ e' h. find-no p x (set es j e') miss ∙ ap shift (f.replaced e' h);
}

found_nowhere : (p : Entry → Bool) (i : ℕ) (e : Entry) → find_entry p [] ≢ some (i, e)
unfolding find_entry
found_nowhere p i e h = ground arith

find-later :
    (p : Entry → Bool) (x : Entry) (es fs : List Entry)
    → find_entry p es ≡ find_entry p fs
    → find_entry p (x ∷ es) ≡ find_entry p (x ∷ fs)
unfolding find_entry
find-later p x es fs h = rw h

pub find_entry-Found :
    (p : Entry → Bool) (es : List Entry) (i : ℕ) (e : Entry)
    → find_entry p es ≡ some (i, e)
    → Found p es i e
find_entry-Found p [] i e h = absurd (found_nowhere p i e h)
find_entry-Found p (x ∷ es) i e h = elim (Bool-cases (p x)) [
  | inl hit ↦
      let same : ◌≡◌ {A = ℕ × Entry} (0, x) (i, e) =
        some-injective _ _ (sym (find-hit p x es hit) ∙ h) in
      let place : 0 ≡ i = ap (λ (t : ℕ × Entry). t.0) same in
      let entry : x ≡ e = ap (λ (t : ℕ × Entry). t.1) same in
      subst (λ n. Found p (x ∷ es) n e) place
        (subst (λ y. Found p (x ∷ es) 0 y) entry (first-Found p x es hit))
  | inr miss ↦
      let (j, found, place) = shift-some (find_entry p es) i e (sym (find-no p x es miss) ∙ h) in
      rw place (later-Found p x es j e miss (find_entry-Found p es j e found))
]

-- An entry that fails the test where one failed before does not change what is found.
pub find-set :
    (p : Entry → Bool) (es : List Entry) (i : ℕ) (old new : Entry)
    → get_elem? es i ≡ some old
    → p old ≡ false
    → p new ≡ false
    → find_entry p (set es i new) ≡ find_entry p es
find-set p [] i old new at_old miss miss' = refl
find-set p (x ∷ es) zero old new at_old miss miss' =
    let same : x ≡ old = some-injective _ _ at_old in
    find-no p new es miss' ∙ sym (find-no p x es (ap p same ∙ miss))
find-set p (x ∷ es) (suc i) old new at_old miss miss' =
    find-later p x (set es i new) es (find-set p es i old new at_old miss miss')

shift-none : (o : Option (ℕ × Entry)) → shift o ≡ none → o ≡ none
shift-none none h = refl
shift-none (some (i, e)) h = absurd (ground arith)

-- A new entry in a place that failed the test is found, if none was.
pub find-new :
    (p : Entry → Bool) (es : List Entry) (i : ℕ) (old new : Entry)
    → get_elem? es i ≡ some old
    → find_entry p es ≡ none
    → p new ≡ true
    → find_entry p (set es i new) ≡ some (i, new)
find-new p [] i old new at_old missing hit = absurd (ground arith)
find-new p (x ∷ es) zero old new at_old missing hit = find-hit p new es hit
find-new p (x ∷ es) (suc i) old new at_old missing hit = elim (Bool-cases (p x)) [
  | inl first ↦
      let e : ◌≡◌ {A = Option (ℕ × Entry)} (some (0, x)) none =
        sym (find-hit p x es first) ∙ missing in
      absurd (ground arith)
  | inr miss ↦
      let e : find_entry p es ≡ none =
        shift-none (find_entry p es) (sym (find-no p x es miss) ∙ missing) in
      find-no p x (set es i new) miss ∙ ap shift (find-new p es i old new at_old e hit)
]
