-- ===== src/User/Rights.antt =====
-- kernel/fs/user.c: who may change an account, and what the change does.
use wos.Prelude.{
  ℕ, ◌^◌, ◌<◌, ◌≤◌, ◌≡◌, ◌≢◌, ◌⊎◌, refl, ap, ◌∙◌, inl, inr, List, [], ◌∷◌, true, false, not, ◌&&◌,
  ◌||◌, Option, none, some, Bool-cases, set, arith, ◌==◌, ltb, length,
}
use wos.Abi.{Result, ok, err}
use wos.Bytes.{strlcpy-fits}
use wos.User.Storage.{Disk}
use wos.User.Lines.{Entry, shell_max}
use wos.User.Hash.{hash_password, hash_equal}
use wos.User.Hash.Equal.{hash_equal_iff, hash_password-bound}
use wos.User.Find.{find_entry-Found}
use wos.User.{
  authenticate, Db, find_by_name, named, may_edit, knows, with_password, save_password,
  save_user_list, fill, set_password, set_roles, set_shell, user_set_password, user_set_roles,
  user_set_shell, user_authenticate, root_uid,
}

abbrev pub IsErr {ℓ} : {A : Type ℓ} → Result A → Type 0
IsErr (ok _) = ⊥
IsErr (err _) = Unit {0}

-- The actor may edit every account, or the account is its own.
abbrev pub MayEdit : List Entry → (actor : ℕ) → Entry → Type 0
MayEdit users actor e = (may_edit users actor ≡ true) ⊎ (e.uid ≡ actor)

-- The same for a password, where the owner has to know the old one.
abbrev pub MaySetPassword : List Entry → (actor : ℕ) → (old_password : List ℕ) → Entry → Type 0
MaySetPassword users actor old_password e =
    (may_edit users actor ≡ true) ⊎ ((e.uid ≡ actor) × (knows e old_password ≡ true))

named-with_password :
    (name : List ℕ) (e : Entry) (salt : ℕ) (password : List ℕ)
    → named name (with_password e salt password) ≡ named name e
named-with_password name e salt [] = refl
named-with_password name e salt (c ∷ cs) = refl

fill-with_password :
    (e : Entry) (salt : ℕ) (password : List ℕ) → fill (with_password e salt password) ≡ fill e
fill-with_password e salt [] = refl
fill-with_password e salt (c ∷ cs) = refl

pub knows-with_password :
    (e : Entry) (salt : ℕ) (password : List ℕ)
    → salt < 2 ^ 64
    → knows (with_password e salt password) password ≡ true
knows-with_password e salt [] small = refl
knows-with_password e salt (c ∷ cs) small =
    let h = hash_password salt (c ∷ cs) in
    let same : hash_equal h h ≡ true =
      (hash_equal_iff h h (hash_password-bound salt (c ∷ cs) small)
          (hash_password-bound salt (c ∷ cs) small)).1
        refl in
    ground arith

authenticate-there :
    (users : List Entry) (name : List ℕ) (e : Entry) (salt : ℕ) (password : List ℕ)
    → salt < 2 ^ 64
    → (i : ℕ) → find_by_name name users ≡ some (i, with_password e salt password)
    → user_authenticate users name password ≡ ok (fill e)
unfolding user_authenticate authenticate
authenticate-there users name e salt password small i h =
    rw (h, knows-with_password e salt password small) (ap ok (fill-with_password e salt password))

module _ (d : Disk) where
  -- What a call that edits one account does to the table: nothing, with an error; or it replaces the
  -- named entry `e` by `change e`, which only happens to one that the actor may change.
  pub record Edits (db : Db d) (name : List ℕ) (May : Entry → Type 0) (change : Entry → Entry)
      (r : Result (Unit {0}) × Db d) : Type 0 where
    pub place : ℕ
    pub entry : Entry
    pub found : find_by_name name db.users ≡ some (place, entry)
    pub allowed : May entry
    pub changes : r.1.users ≡ set db.users place (change entry)

  abbrev pub Guarded :
      (db : Db d) (name : List ℕ) (May : Entry → Type 0) (change : Entry → Entry)
      (r : Result (Unit {0}) × Db d)
      → Type 0
  Guarded db name May change r = ((r.1 ≡ db) × IsErr r.0) ⊎ Edits db name May change r

  pub save_password-users : (db : Db d) (e : Entry) → (save_password d db e).1.users ≡ db.users
  unfolding save_password
  save_password-users db e = refl

  pub save_user_list-users : (db : Db d) → (save_user_list d db).1.users ≡ db.users
  unfolding save_user_list
  save_user_list-users db = refl

  set_password-Guarded :
      (db : Db d) (salt actor : ℕ) (name old_password new_password : List ℕ)
      → (o : Option (ℕ × Entry)) → find_by_name name db.users ≡ o
      → Guarded db name
          (MaySetPassword db.users actor old_password)
          (λ e. with_password e salt new_password)
          (set_password d db salt actor old_password new_password o)
  unfolding set_password
  set_password-Guarded db salt actor name old_password new_password none h = inl (refl, tt)
  set_password-Guarded db salt actor name old_password new_password (some (i, e)) h =
      elim (Bool-cases (may_edit db.users actor)) [
        | inl editor ↦ rw editor (
            inr (record {
              place = i;
              entry = e;
              found = h;
              allowed = inl editor;
              changes = save_password-users _ _;
            }))
        | inr other ↦ elim (Bool-cases (e.uid == actor)) [
          | inr apart ↦ rw (other, apart) (inl (refl, tt))
          | inl own ↦ elim (Bool-cases (knows e old_password)) [
            | inr wrong ↦ rw (other, own, wrong) (inl (refl, tt))
            | inl right ↦
                rw (other, own, right)
                  (inr (record {
                    place = i;
                    entry = e;
                    found = h;
                    allowed = inr (ground arith, right);
                    changes = save_password-users _ _;
                  }))
          ]
        ]
      ]

  -- A new password is set for an account by an editor of accounts, or by its owner who knows the old
  -- one, and it is the only thing in the table that changes; without that right, an error is returned
  -- and nothing changes at all.
  pub user_set_password-Guarded :
      (db : Db d) (salt actor : ℕ) (name old_password new_password : List ℕ)
      → Guarded db name
          (MaySetPassword db.users actor old_password)
          (λ e. with_password e salt new_password)
          (user_set_password d db salt actor name old_password new_password)
  unfolding user_set_password
  user_set_password-Guarded db salt actor name old_password new_password =
      set_password-Guarded db salt actor name old_password new_password (find_by_name name db.users)
        refl

  set_roles-Guarded :
      (db : Db d) (actor : ℕ) (name : List ℕ) (roles : ℕ) (o : Option (ℕ × Entry))
      → find_by_name name db.users ≡ o
      → Guarded db name
          (λ e. (may_edit db.users actor ≡ true) × (e.uid ≢ root_uid))
          (λ e. record e { roles = roles })
          (set_roles d db actor roles o)
  unfolding set_roles
  set_roles-Guarded db actor name roles none h = elim (Bool-cases (may_edit db.users actor)) [
    | inl editor ↦ rw editor (inl (refl, tt))
    | inr other ↦ rw other (inl (refl, tt))
  ]
  set_roles-Guarded db actor name roles (some (i, e)) h =
      elim (Bool-cases (may_edit db.users actor)) [
        | inr other ↦ rw other (inl (refl, tt))
        | inl editor ↦ elim (Bool-cases (e.uid == root_uid)) [
          | inl root ↦ rw (editor, root) (inl (refl, tt))
          | inr plain ↦
              rw (editor, plain)
                (inr (record {
                  place = i;
                  entry = e;
                  found = h;
                  allowed = (refl, ground arith);
                  changes = save_user_list-users _;
                }))
        ]
      ]

  -- Only an editor of accounts changes roles, those of the named account alone, and never those of
  -- root; without that right, an error is returned and nothing changes at all.
  pub user_set_roles-Guarded :
      (db : Db d) (actor : ℕ) (name : List ℕ) (roles : ℕ)
      → Guarded db name
          (λ e. (may_edit db.users actor ≡ true) × (e.uid ≢ root_uid))
          (λ e. record e { roles = roles })
          (user_set_roles d db actor name roles)
  unfolding user_set_roles
  user_set_roles-Guarded db actor name roles =
      set_roles-Guarded db actor name roles (find_by_name name db.users) refl

  set_shell-Guarded :
      (db : Db d) (actor : ℕ) (name shell : List ℕ) (o : Option (ℕ × Entry))
      → find_by_name name db.users ≡ o
      → Guarded db name
          (λ e. MayEdit db.users actor e × (length shell ≤ shell_max))
          (λ e. record e { shell = shell })
          (set_shell d db actor shell o)
  unfolding set_shell
  set_shell-Guarded db actor name shell none h = inl (refl, tt)
  set_shell-Guarded db actor name shell (some (i, e)) h =
      elim (Bool-cases (may_edit db.users actor || (e.uid == actor))) [
        | inr other ↦
            let a : may_edit db.users actor ≡ false = ground arith in
            let b : (e.uid == actor) ≡ false = ground arith in rw (a, b) (inl (refl, tt))
        | inl may ↦
            let guard : (not (may_edit db.users actor) && not (e.uid == actor)) ≡ false =
              ground arith in
            elim (Bool-cases (ltb shell_max (length shell))) [
              | inl long ↦ rw (guard, long) (inl (refl, tt))
              | inr fits ↦
                  rw (guard, fits, strlcpy-fits shell 64 (ground arith))
                    (inr (record {
                      place = i;
                      entry = e;
                      found = h;
                      allowed = (ground arith, ground arith);
                      changes = save_user_list-users _;
                    }))
            ]
      ]

  -- A login shell of at most 63 bytes is set for an account by an editor of accounts or by its owner,
  -- and it is the only thing in the table that changes; otherwise an error is returned and nothing
  -- changes at all.
  pub user_set_shell-Guarded :
      (db : Db d) (actor : ℕ) (name shell : List ℕ)
      → Guarded db name
          (λ e. MayEdit db.users actor e × (length shell ≤ shell_max))
          (λ e. record e { shell = shell })
          (user_set_shell d db actor name shell)
  unfolding user_set_shell
  user_set_shell-Guarded db actor name shell =
      set_shell-Guarded db actor name shell (find_by_name name db.users) refl

  allowed-sets :
      (db : Db d) (salt actor : ℕ) (old_password new_password : List ℕ) (i : ℕ) (e : Entry)
      → MaySetPassword db.users actor old_password e
      → (set_password d db salt actor old_password new_password (some (i, e))).1.users
        ≡ set db.users i (with_password e salt new_password)
  unfolding set_password
  allowed-sets db salt actor old_password new_password i e m =
      let person : (not (may_edit db.users actor) && not (e.uid == actor)) ≡ false = ground arith in
      let secret : (not (may_edit db.users actor) && not (knows e old_password)) ≡ false =
        ground arith in
      rw (person, secret) (save_password-users _ _)

  set_password-allowed :
      (db : Db d) (salt actor : ℕ) (name old_password new_password : List ℕ) (i : ℕ) (e : Entry)
      → find_by_name name db.users ≡ some (i, e)
      → MaySetPassword db.users actor old_password e
      → (user_set_password d db salt actor name old_password new_password).1.users
        ≡ set db.users i (with_password e salt new_password)
  unfolding user_set_password
  set_password-allowed db salt actor name old_password new_password i e h m =
      ap
        (λ (o : Option (ℕ × Entry)).
          (set_password d db salt actor old_password new_password o).1.users)
        h
      ∙ allowed-sets db salt actor old_password new_password i e m

  -- After a call that set a password, that password opens the account.
  pub set_password-authenticate :
      (db : Db d) (salt actor : ℕ) (name old_password new_password : List ℕ)
      → salt < 2 ^ 64
      → (i : ℕ) (e : Entry) → find_by_name name db.users ≡ some (i, e)
      → MaySetPassword db.users actor old_password e
      → user_authenticate
          (user_set_password d db salt actor name old_password new_password).1.users
          name
          new_password
        ≡ ok (fill e)
  set_password-authenticate db salt actor name old_password new_password small i e h m =
      let e' = with_password e salt new_password in
      let f = find_entry-Found (named name) db.users i e h in
      let there : find_by_name name (set db.users i e') ≡ some (i, e') =
        f.replaced e' (named-with_password name e salt new_password ∙ f.passes) in
      ap (λ (users : List Entry). user_authenticate users name new_password)
        (set_password-allowed db salt actor name old_password new_password i e h m)
      ∙ authenticate-there (set db.users i e') name e salt new_password small i there
