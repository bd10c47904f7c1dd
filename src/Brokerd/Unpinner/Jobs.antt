-- ===== src/Brokerd/Unpinner/Jobs.antt =====
-- No unpin job is lost before its cid is unpinned.
use broker_core.Base.{
  ℕ, ◌≡◌, ◌∙◌, refl, sym, ap, String, Bool, true, Option, none, some, List, [], ◌∷◌, ◌++◌, ◌&&◌,
  ◌||◌, leb, str_eq, eq_iff, eq_refl, if◌then◌else◌, All, All-map, Bool-cases, inl, inr, ◌⊎◌, arith,
  subst,
}
use broker_core.Base.Rows.{
  select, exists_row, update_rows, delete_rows, first_by, All-update_rows, exists_row-append,
  exists_row-append_self,
}
use broker_core.Brokerd.Types.{Ident}
use broker_core.Brokerd.Schema.{Db, UnpinJobRow}
use broker_core.Brokerd.Unpinner
use broker_core.Brokerd.Unpinner.{Env, is_job}

abbrev pub is_in : String → List String → Bool
is_in c cs = exists_row (λ x. str_eq x c) cs

-- A job with the id and the cid.
abbrev pub is_same : UnpinJobRow → UnpinJobRow → Bool
is_same j x = str_eq x.id j.id && str_eq x.cid j.cid

-- The job is there, or its cid is unpinned, or the node says so.
abbrev pub DoneOrThere : Env → Db → List String → UnpinJobRow → Type 0
DoneOrThere env d cs j =
    (exists_row (is_same j) d.unpin_jobs || (is_in j.cid cs || env.skips j.cid)) ≡ true

-- The jobs `js` are done or there, and an id has one cid.
pub record Kept (env : Env) (cid_of : Ident → String) (js : List UnpinJobRow) (d : Db)
    (cs : List String) : Type 0 where
  pub jobs : All (DoneOrThere env d cs) js
  pub cids : All (λ x. x.cid ≡ cid_of x.id) d.unpin_jobs

module _ {A : Type 0} where
  exists-update :
      (p q : A → Bool) (f : A → A) (xs : List A)
      → ((x : A) → p (f x) ≡ p x)
      → exists_row p (update_rows q f xs) ≡ exists_row p xs
  unfolding exists_row update_rows
  exists-update p q f [] h = refl
  exists-update p q f (x ∷ xs) h = ground (arith, h x, exists-update p q f xs h)

  exists-delete :
      {P : A → Type 0} (p q : A → Bool) (xs : List A)
      → All P xs
      → exists_row p xs ≡ true
      → (exists_row p (delete_rows q xs) ≡ true) ⊎ ((x : A) × (p x ≡ true) × (q x ≡ true) × P x)
  unfolding exists_row delete_rows
  exists-delete p q [] a h = cc
  exists-delete p q (x ∷ xs) a h = elim (Bool-cases (p x)) [
    | inl e ↦ elim (Bool-cases (q x)) [ inl t ↦ inr (x, e, t, a.0) | inr n ↦ inl (rw (n, e) refl) ]
    | inr e ↦ elim (exists-delete p q xs a.1 (rw e at h)) [
      | inr r ↦ inr r
      | inl k ↦ inl (ground (arith, e, k))
    ]
  ]

  All-delete : (P : A → Type 0) (q : A → Bool) (xs : List A) → All P xs → All P (delete_rows q xs)
  unfolding delete_rows
  All-delete P q [] h = tt
  All-delete P q (x ∷ xs) h = elim (Bool-cases (q x)) [
    | inl e ↦ rw e (All-delete P q xs h.1)
    | inr e ↦ rw e (h.0, All-delete P q xs h.1)
  ]

  pub All-select : (P : A → Type 0) (q : A → Bool) (xs : List A) → All P xs → All P (select q xs)
  unfolding select
  All-select P q [] h = tt
  All-select P q (x ∷ xs) h = elim (Bool-cases (q x)) [
    | inl e ↦ rw e (h.0, All-select P q xs h.1)
    | inr e ↦ rw e (All-select P q xs h.1)
  ]

  -- What holds of the rows holds of the first.
  abbrev pub OnSome : (A → Type 0) → Option A → Type 0
  OnSome P none = Unit
  OnSome P (some a) = P a

  nearer :
      (P : A → Type 0) (key : A → ℕ) (x : A) (o : Option A)
      → P x
      → OnSome P o
      → OnSome P
          (elim o [ none ↦ some x | some y ↦ if leb (key x) (key y) then some x else some y ])
  nearer P key x none p h = p
  nearer P key x (some y) p h = elim (Bool-cases (leb (key x) (key y))) [
    | inl e ↦ rw e p
    | inr e ↦ rw e h
  ]

  pub first_by-All :
      (P : A → Type 0) (key : A → ℕ) (xs : List A) → All P xs → OnSome P (first_by key xs)
  unfolding first_by
  first_by-All P key [] h = tt
  first_by-All P key (x ∷ xs) h = nearer P key x (first_by key xs) h.0 (first_by-All P key xs h.1)

module _ (env : Env) (cid_of : Ident → String) (js : List UnpinJobRow) where
  -- An update that keeps the ids and the cids.
  pub Kept-update :
      (q : UnpinJobRow → Bool) (f : UnpinJobRow → UnpinJobRow) (d : Db) (cs : List String)
      → ((x : UnpinJobRow) → (f x).id ≡ x.id)
      → ((x : UnpinJobRow) → (f x).cid ≡ x.cid)
      → Kept env cid_of js d cs
      → Kept env cid_of js (record d { unpin_jobs = update_rows q f d.unpin_jobs }) cs
  Kept-update q f d cs i c k = record {
    jobs =
        All-map _ _ js
          (λ j h. rw (exists-update (is_same j) q f d.unpin_jobs (λ x. rw (i x, c x) refl)) h)
          k.jobs;
    cids =
        All-update_rows _ _ q f d.unpin_jobs (λ x _ h. c x ∙ h ∙ ap cid_of (sym (i x))) (λ x _ h. h)
          k.cids;
  }

  pub Kept-lease :
      (now : ℕ) (o : Option UnpinJobRow) (d : Db) (cs : List String)
      → Kept env cid_of js d cs
      → Kept env cid_of js (Unpinner.lease now o d) cs
  Kept-lease now none d cs k = k
  Kept-lease now (some j) d cs k = Kept-update _ _ d cs (λ x. refl) (λ x. refl) k

  -- The cid is unpinned, or the node says so.
  abbrev pub IsDone : String → List String → Type 0
  IsDone c cs = (is_in c cs || env.skips c) ≡ true

  pub Kept-delete :
      (i : Ident) (d : Db) (cs : List String)
      → IsDone (cid_of i) cs
      → Kept env cid_of js d cs
      → Kept env cid_of js (Unpinner.delete_executing_unpin_job i d) cs
  unfolding Unpinner.delete_executing_unpin_job
  Kept-delete i d cs e k = record {
    jobs = All-map _ _ js (λ j h. still j h) k.jobs;
    cids = All-delete _ _ d.unpin_jobs k.cids;
  }
    where
      same_cid :
          (j x : UnpinJobRow)
          → is_same j x ≡ true
          → (is_job i x && x.executing) ≡ true
          → x.cid ≡ cid_of x.id
          → j.cid ≡ cid_of i
      same_cid j x s t c =
          let a = (eq_iff x.cid j.cid).0 (ground (arith, s)) in
          let b = (eq_iff x.id i).0 (ground (arith, t)) in sym a ∙ c ∙ ap cid_of b

      still :
          (j : UnpinJobRow)
          → DoneOrThere env d cs j
          → DoneOrThere env (Unpinner.delete_executing_unpin_job i d) cs j
      still j h = elim (Bool-cases (exists_row (is_same j) d.unpin_jobs)) [
        | inr n ↦ ground (arith, h, n)
        | inl t ↦
            elim (exists-delete (is_same j) (λ x. is_job i x && x.executing) d.unpin_jobs k.cids
              t) [
                | inl l ↦ rw l refl
                | inr (x, s, q, c) ↦
                    let y = same_cid j x s q c in
                    let z = subst (λ v. IsDone v cs) (sym y) e in ground (arith, z)
              ]
      ]

  pub Kept-publish :
      (c : String) (d : Db) (cs : List String)
      → Kept env cid_of js d cs
      → Kept env cid_of js d (cs ++ c ∷ []) × IsDone c (cs ++ c ∷ [])
  Kept-publish c d cs k = (
    record {
      jobs =
          All-map _ _ js
            (λ j h. ground (arith, h, exists_row-append (λ x. str_eq x j.cid) cs (c ∷ []))) k.jobs;
      cids = k.cids;
    },
    rw (exists_row-append_self (λ x. str_eq x c) cs c (eq_refl c)) refl,
  )
