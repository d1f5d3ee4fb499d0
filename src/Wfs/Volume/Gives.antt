-- ===== src/Wfs/Volume/Gives.antt =====
-- What an operation of kernel/fs/wfs.c that leaves the blocks of the volume as they are answers.
use wos.Prelude.{ℕ, ◌≡◌, refl, subst, Bool, true, false, if◌then◌else◌}
use wos.Abi.{Error, Result, ok, err}
use wos.Exec.{Exec, continue, pure, raise, attempt, ◌>>=◌}
use wos.Wfs.Device.{Device, Bytes, Keeps}
use wos.Wfs.Cache.Represented.{Represents}
use wos.Wfs.Volume.{Volume}
use wos.Wfs.Volume.Stored.{Stands, Stands-trans}

module _ {d : Device} (k : Keeps d) (blocks : ℕ → Bytes) where
  -- The answer, where it is no error, is as `Q` says.
  pub record Gives {A : Type 0} (Q : A → Type 0) (v : Volume d) (out : Result A × Volume d)
      : Type 0 where
    pub answer : (a : A) → out.0 ≡ ok a → Q a
    pub stands : Stands k blocks v out.1

module _ {d : Device} {k : Keeps d} {blocks : ℕ → Bytes} {A : Type 0} {Q : A → Type 0} where
  pub Gives-pure :
      (v : Volume d) (a : A) → Represents k blocks v.io → Q a → Gives k blocks Q v (pure a v)
  unfolding ◌>>=◌
  Gives-pure v a r q = record {
    answer = λ b e. let same : a ≡ b = cc in subst Q same q;
    stands = record { represents = r; same_partition = refl; rest = refl };
  }

  pub Gives-raise :
      (v : Volume d) (e : Error) → Represents k blocks v.io → Gives k blocks Q v (raise e v)
  unfolding ◌>>=◌
  Gives-raise v e r = record {
    answer = λ b h. absurd cc;
    stands = record { represents = r; same_partition = refl; rest = refl };
  }

  pub Gives-attempt :
      (m : Exec (Volume d) A) (v : Volume d)
      → Gives k blocks Q v (m v)
      → Gives k blocks (λ r. (a : A) → r ≡ ok a → Q a) v (attempt m v)
  unfolding ◌>>=◌
  Gives-attempt m v g = record { answer = λ r e a h. g.answer a (cc); stands = g.stands }

  pub Gives-if :
      (b : Bool) (m n : Exec (Volume d) A) (v : Volume d)
      → (b ≡ true → Gives k blocks Q v (m v))
      → (b ≡ false → Gives k blocks Q v (n v))
      → Gives k blocks Q v ((if b then m else n) v)
  Gives-if true m n v g h = g refl
  Gives-if false m n v g h = h refl

module _ {d : Device} {k : Keeps d} {blocks : ℕ → Bytes} {A B : Type 0} {Q : A → Type 0}
    {R : B → Type 0} where
  Gives-continue :
      (v : Volume d) (out : Result A × Volume d) (f : A → Exec (Volume d) B)
      → Gives k blocks Q v out
      → ((a : A) (v' : Volume d) → Q a → Stands k blocks v v' → Gives k blocks R v' (f a v'))
      → Gives k blocks R v (continue out.0 f out.1)
  Gives-continue v (err e, v') f g rest = record { answer = λ b h. absurd cc; stands = g.stands }
  Gives-continue v (ok a, v') f g rest =
      let h = rest a v' (g.answer a refl) g.stands in
      record { answer = h.answer; stands = Stands-trans k g.stands h.stands }

  pub Gives-bind :
      (m : Exec (Volume d) A) (f : A → Exec (Volume d) B) (v : Volume d)
      → Gives k blocks Q v (m v)
      → ((a : A) (v' : Volume d) → Q a → Stands k blocks v v' → Gives k blocks R v' (f a v'))
      → Gives k blocks R v ((m >>= f) v)
  unfolding ◌>>=◌
  Gives-bind m f v g rest = Gives-continue v (m v) f g rest
