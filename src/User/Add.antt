-- ===== src/User/Add.antt =====
-- kernel/fs/user.c: a new account.
use wos.Prelude.{
  ℕ, ◌+◌, ◌%◌, ◌^◌, ◌<◌, ◌≤◌, ◌≡◌, ◌⊎◌, refl, sym, ap, subst, ◌∙◌, inl, inr, List, [], ◌∷◌, true,
  false, ◌||◌, Option, none, some, Bool-cases, set, arith, ltb, length,
}
use wos.Abi.{Error, Result, ok, err, eperm, einval}
use wos.Bytes.{str_eq_iff, strlcpy-fits}
use wos.User.Storage.{Disk}
use wos.User.Lines.{Entry, blank, name_len}
use wos.User.Find.{find_entry-Found, find-new}
use wos.User.Rights.{knows-with_password, save_user_list-users, save_password-users}
use wos.User.{
  Db, Account, find_by_name, find_entry, named, is_free, may_edit, knows, added, save_user_list,
  fill, is_nil, any_bad, end_add, also_password, finish_add, add_new, user_add, user_authenticate,
  authenticate,
}

-- A name that can stand in a path and in a line of the list.
abbrev pub Legal : List ℕ → Type 0
Legal name = (is_nil name ≡ false) × (length name ≤ name_len) × (any_bad name ≡ false)

fill-added :
    (d : Disk) (db : Db d) (salt : ℕ) (name password : List ℕ) (roles : ℕ)
    → length name ≤ name_len
    → fill (added d db salt name password roles)
      ≡ record { uid = db.next_uid; roles = roles; name = name }
unfolding added
fill-added d db salt name [] roles few =
    rw (strlcpy-fits name 32 (omega arith), strlcpy-fits name 32 (omega arith)) refl
fill-added d db salt name (c ∷ cs) roles few =
    rw (strlcpy-fits name 32 (omega arith), strlcpy-fits name 32 (omega arith)) refl

named-added :
    (d : Disk) (db : Db d) (salt : ℕ) (name password : List ℕ) (roles : ℕ)
    → length name ≤ name_len
    → named name (added d db salt name password roles) ≡ true
unfolding added
named-added d db salt name [] roles few =
    rw (strlcpy-fits name 32 (omega arith)) ((str_eq_iff name name).1 refl)
named-added d db salt name (c ∷ cs) roles few =
    rw (strlcpy-fits name 32 (omega arith)) ((str_eq_iff name name).1 refl)

knows-added :
    (d : Disk) (db : Db d) (salt : ℕ) (name password : List ℕ) (roles : ℕ)
    → salt < 2 ^ 64
    → knows (added d db salt name password roles) password ≡ true
unfolding added
knows-added d db salt name [] roles small = refl
knows-added d db salt name (c ∷ cs) roles small = knows-with_password blank salt (c ∷ cs) small

authenticate-knows :
    (users : List Entry) (name password : List ℕ) (i : ℕ) (e : Entry)
    → find_by_name name users ≡ some (i, e)
    → knows e password ≡ true
    → user_authenticate users name password ≡ ok (fill e)
unfolding user_authenticate authenticate
authenticate-knows users name password i e h k = rw (h, k)

module _ (d : Disk) where
  also_password-users :
      (e : Entry) (x : Result (Unit {0}) × Db d) → (also_password d e x).1.users ≡ x.1.users
  unfolding also_password
  also_password-users e (ok u, db) = save_password-users d db e
  also_password-users e (err r, db) = refl

  end_add-ok :
      (slot uid : ℕ) (e : Entry) (x : Result (Unit {0}) × Db d)
      → (end_add d slot e x).0 ≡ ok uid
      → (e.uid ≡ uid) × ((end_add d slot e x).1.users ≡ x.1.users)
  unfolding end_add
  end_add-ok slot uid e (ok u, db) h = (ground arith, refl)
  end_add-ok slot uid e (err r, db) h = absurd (ground arith)

  finish_add-ok :
      (db : Db d) (slot uid : ℕ) (e : Entry)
      → (finish_add d db slot e).0 ≡ ok uid
      → (e.uid ≡ uid) × ((finish_add d db slot e).1.users ≡ db.users)
  unfolding finish_add
  finish_add-ok db slot uid e h =
      let (same, users) = end_add-ok slot uid e (also_password d e (save_user_list d db)) h in
      (same, users ∙ also_password-users e (save_user_list d db) ∙ save_user_list-users d db)

  user_add_cases :
      (db : Db d) (salt actor : ℕ) (name password : List ℕ) (roles : ℕ)
      → ((r : Error) × (user_add d db salt actor name password roles ≡ (err r, db)))
        ⊎ ((may_edit db.users actor ≡ true)
            × Legal name
            × (user_add d db salt actor name password roles
                ≡ add_new d db salt name password roles
                    (find_by_name name db.users)
                    (find_entry is_free db.users)))
  unfolding user_add
  user_add_cases db salt actor name password roles = elim (Bool-cases (may_edit db.users actor)) [
    | inr other ↦ inl (eperm, rw other)
    | inl editor ↦ elim (Bool-cases (is_nil name || ltb name_len (length name))) [
      | inl wrong ↦ inl (einval, rw (editor, wrong))
      | inr fine ↦ elim (Bool-cases (any_bad name)) [
        | inl bad ↦ inl (einval, rw (editor, fine, bad))
        | inr plain ↦ inr (editor, (ground arith, ground arith, plain), rw (editor, fine, plain))
      ]
    ]
  ]

  -- What a successful user_add did: its caller may edit accounts, and the name is legal and was not
  -- taken.
  pub record Added (db : Db d) (actor : ℕ) (name password : List ℕ) (roles uid : ℕ) (after : Db d)
      : Type 0 where
    pub editor : may_edit db.users actor ≡ true
    pub legal : Legal name
    pub fresh : find_by_name name db.users ≡ none
    pub number : uid ≡ db.next_uid
    pub opens :
        user_authenticate after.users name password
        ≡ ok (record { uid = uid; roles = roles; name = name })

  add_new-ok :
      (db : Db d) (salt actor : ℕ) (name password : List ℕ) (roles uid : ℕ)
      → (taken free : Option (ℕ × Entry))
      → (find_by_name name db.users ≡ taken) × (find_entry is_free db.users ≡ free)
      → salt < 2 ^ 64
      → may_edit db.users actor ≡ true
      → Legal name
      → (add_new d db salt name password roles taken free).0 ≡ ok uid
      → Added db actor name password roles uid (add_new d db salt name password roles taken free).1
  unfolding add_new
  add_new-ok db salt actor name password roles uid (some t) free h small editor legal good =
      absurd (ground arith)
  add_new-ok db salt actor name password roles uid none none h small editor legal good =
      absurd (ground arith)
  add_new-ok db salt actor name password roles uid none (some (slot, old)) h small editor legal
        good =
      let e = added d db salt name password roles in
      let f = find_entry-Found is_free db.users slot old h.1 in
      let full = record db { users = set db.users slot e; next_uid = (db.next_uid + 1) % 2 ^ 32 } in
      let (same, users) = finish_add-ok full slot uid e good in
      let filled = fill-added d db salt name password roles legal.1 in
      let number : uid ≡ db.next_uid = sym same ∙ ap (λ (a : Account). a.uid) filled in
      let there : find_by_name name (set db.users slot e) ≡ some (slot, e) =
        find-new (named name) db.users slot old e f.stands h.0
          (named-added d db salt name password roles legal.1) in
      record {
        editor = editor;
        legal = legal;
        fresh = h.0;
        number = number;
        opens =
            ap (λ (us : List Entry). user_authenticate us name password) users
            ∙ authenticate-knows (set db.users slot e) name password slot e there
                (knows-added d db salt name password roles small)
            ∙ ap ok (
                filled
                ∙ ap (λ (n : ℕ). record { uid = n; roles = roles; name = name }) (sym number));
      }

  -- A user_add that returns a number was made by an editor of accounts, with a legal name that no
  -- account had; and in the table after it that name and the password given open the account with that number
  -- and those roles. The salt is a word of 64 bits.
  pub user_add-authenticate :
      (db : Db d) (salt actor : ℕ) (name password : List ℕ) (roles uid : ℕ)
      → salt < 2 ^ 64
      → (user_add d db salt actor name password roles).0 ≡ ok uid
      → Added db actor name password roles uid (user_add d db salt actor name password roles).1
  user_add-authenticate db salt actor name password roles uid small good =
      elim (user_add_cases db salt actor name password roles) [
        | inl (r, e) ↦
            let bad : ◌≡◌ {A = Result ℕ} (ok uid) (err r) =
              sym good ∙ ap (λ (x : Result ℕ × Db d). x.0) e in
            absurd (ground arith)
        | inr (editor, legal, e) ↦
            subst (λ (x : Result ℕ × Db d). Added db actor name password roles uid x.1) (sym e)
              (add_new-ok db salt actor name password roles uid (find_by_name name db.users)
                (find_entry is_free db.users) (refl, refl) small editor legal
                (ap (λ (x : Result ℕ × Db d). x.0) (sym e) ∙ good))
      ]
