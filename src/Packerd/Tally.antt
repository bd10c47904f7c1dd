-- ===== src/Packerd/Tally.antt =====
-- The size of every batch is the sum of the sizes of its requests.
use broker_core.Base.{
  ℕ, ◌+◌, String, ◌≡◌, refl, sym, ◌∙◌, subst, Bool, true, false, Option, none, some, List, [], ◌∷◌,
  ◌++◌, leb, str_eq, eq_iff, eq_refl, if◌then◌else◌, All, All-append, All-map, arith, inl, inr,
  Bool-cases, text_cases,
}
use broker_core.Base.Rows.{
  select, exists_row, update_rows, All-update_rows, exists_row-append, exists_row-append_self,
}
use broker_core.Packerd.Schema
use broker_core.Packerd.Schema.{
  Status, BatchRow, RequestRow, Db, open_batch, is_batch, least, has_space,
}

-- The sizes of the requests of a batch, added up.
unfoldable pub sum_of : String → List RequestRow → ℕ
sum_of i [] = 0
sum_of i (r ∷ rs) = (if str_eq r.batch_id i then r.size else 0) + sum_of i rs

pub record IsTallied (d : Db) : Type 0 where
  pub sums : All (λ b. b.total_size ≡ sum_of b.batch_id d.requests) d.batches
  pub known : All (λ r. exists_row (is_batch r.batch_id) d.batches ≡ true) d.requests

sum_of-append :
    (i : String) (rs : List RequestRow) (r : RequestRow)
    → sum_of i (rs ++ r ∷ []) ≡ sum_of i rs + (if str_eq r.batch_id i then r.size else 0)
unfolding sum_of
sum_of-append i [] r = omega arith
sum_of-append i (x ∷ rs) r = omega (arith, sum_of-append i rs r)

-- An update that changes no id.
exists_row-update :
    (i : String) (p : BatchRow → Bool) (f : BatchRow → BatchRow) (bs : List BatchRow)
    → ((b : BatchRow) → (f b).batch_id ≡ b.batch_id)
    → exists_row (is_batch i) (update_rows p f bs) ≡ exists_row (is_batch i) bs
unfolding exists_row update_rows
exists_row-update i p f [] e = refl
exists_row-update i p f (b ∷ bs) e = elim (Bool-cases (p b)) [
  | inl q ↦ rw (q, e b, exists_row-update i p f bs e) refl
  | inr q ↦ rw (q, exists_row-update i p f bs e) refl
]

-- An update that changes no id and no size.
pub updated_IsTallied :
    (p : BatchRow → Bool) (f : BatchRow → BatchRow) (d : Db)
    → ((b : BatchRow) → (f b).batch_id ≡ b.batch_id)
    → ((b : BatchRow) → (f b).total_size ≡ b.total_size)
    → IsTallied d
    → IsTallied (record d { batches = update_rows p f d.batches })
updated_IsTallied p f d ei es h = record {
  sums = All-update_rows _ _ p f d.batches (λ b q k. rw (ei b, es b) k) (λ b q k. k) h.sums;
  known = All-map _ _ d.requests (λ r k. exists_row-update r.batch_id p f d.batches ei ∙ k) h.known;
}

-- A batch that no row has has no requests.
no_sum :
    (i : String) (bs : List BatchRow) (rs : List RequestRow)
    → exists_row (is_batch i) bs ≡ false
    → All (λ r. exists_row (is_batch r.batch_id) bs ≡ true) rs
    → sum_of i rs ≡ 0
unfolding sum_of
no_sum i bs [] n h = refl
no_sum i bs (r ∷ rs) n h = elim (text_cases r.batch_id i) [
  | inl e ↦ cc (rw e at h.0)
  | inr e ↦ rw (e, no_sum i bs rs n h.1) refl
]

pub opened_IsTallied :
    (id origin : String) (now : ℕ) (d : Db)
    → exists_row (is_batch id) d.batches ≡ false
    → IsTallied d
    → IsTallied (record d { batches = d.batches ++ open_batch id origin now ∷ [] })
opened_IsTallied id origin now d n h = record {
  sums =
      All-append _ d.batches (open_batch id origin now ∷ []) h.sums
        (sym (no_sum id d.batches d.requests n h.known), tt);
  known =
      All-map _ _ d.requests
        (λ r k. exists_row-append (is_batch r.batch_id) d.batches (open_batch id origin now ∷ []) k)
        h.known;
}

-- A request is added to a batch, whose size grows by the request's.
pub added_IsTallied :
    (r : RequestRow) (total now : ℕ) (d : Db)
    → total ≡ sum_of r.batch_id d.requests
    → exists_row (is_batch r.batch_id) d.batches ≡ true
    → IsTallied d
    → IsTallied (
        Schema.update_batch_size r.batch_id
          (total + r.size)
          now
          (record d { requests = d.requests ++ r ∷ [] }))
unfolding Schema.update_batch_size
added_IsTallied r total now d t x h = record {
  sums =
      All-update_rows _ _ (is_batch r.batch_id) _ d.batches (λ b q k. hit b q) (λ b q k. miss b q k)
        h.sums;
  known =
      All-map _ _ (d.requests ++ r ∷ [])
        (λ y k. exists_row-update y.batch_id (is_batch r.batch_id) _ d.batches (λ b. refl) ∙ k)
        (All-append _ d.requests (r ∷ []) h.known (x, tt));
}
  where
    hit :
        (b : BatchRow)
        → is_batch r.batch_id b ≡ true
        → total + r.size ≡ sum_of b.batch_id (d.requests ++ r ∷ [])
    hit b q =
        let e : b.batch_id ≡ r.batch_id = (eq_iff b.batch_id r.batch_id).0 q in
        rw (sum_of-append b.batch_id d.requests r, e, eq_refl r.batch_id, t) refl

    miss :
        (b : BatchRow)
        → is_batch r.batch_id b ≡ false
        → b.total_size ≡ sum_of b.batch_id d.requests
        → b.total_size ≡ sum_of b.batch_id (d.requests ++ r ∷ [])
    miss b q k = elim (text_cases r.batch_id b.batch_id) [
      | inl e ↦ cc (rw (e, eq_refl b.batch_id) at q)
      | inr e ↦ rw (sum_of-append b.batch_id d.requests r, e) (omega (arith, k))
    ]

some_inj : (x y : BatchRow) → some x ≡ some y → x ≡ y
some_inj x y e = cc

least_by :
    (P : BatchRow → Type 0) (key : BatchRow → ℕ) (x b : BatchRow) (o : Option BatchRow)
    → elim o [ none ↦ some x | some c ↦ if leb (key x) (key c) then some x else some c ] ≡ some b
    → P x
    → ((c : BatchRow) → o ≡ some c → P c)
    → P b
least_by P key x b none e hx k = subst P (some_inj x b e) hx
least_by P key x b (some c) e hx k = elim (Bool-cases (leb (key x) (key c))) [
  | inl q ↦ subst P (some_inj x b (rw q at e)) hx
  | inr q ↦ subst P (some_inj c b (rw q at e)) (k c refl)
]

-- What the least row of a selection has.
pub least-All :
    (P : BatchRow → Type 0) (key : BatchRow → ℕ) (bs : List BatchRow) (b : BatchRow)
    → All P bs
    → least key bs ≡ some b
    → P b
unfolding least
least-All P key [] b h e = cc
least-All P key (x ∷ bs) b h e =
    least_by P key x b (least key bs) e h.0 (λ c q. least-All P key bs c h.1 q)

pub select-All :
    (P : BatchRow → Type 0) (p : BatchRow → Bool) (bs : List BatchRow)
    → All P bs
    → All P (select p bs)
unfolding select
select-All P p [] h = tt
select-All P p (b ∷ bs) h = elim (Bool-cases (p b)) [
  | inl e ↦ rw e (h.0, select-All P p bs h.1)
  | inr e ↦ rw e (select-All P p bs h.1)
]

-- Every row is there.
pub rows_found : (bs : List BatchRow) → All (λ b. exists_row (is_batch b.batch_id) bs ≡ true) bs
unfolding exists_row
rows_found [] = tt
rows_found (b ∷ bs) =
    (rw (eq_refl b.batch_id) refl, All-map _ _ bs (λ c k. later c k) (rows_found bs))
  where
    later :
        (c : BatchRow)
        → exists_row (is_batch c.batch_id) bs ≡ true
        → exists_row (is_batch c.batch_id) (b ∷ bs) ≡ true
    later c k = elim (Bool-cases (str_eq b.batch_id c.batch_id)) [
      | inl q ↦ rw q refl
      | inr q ↦ rw q k
    ]

All-both :
    {A : Type 0} (P Q : A → Type 0) (xs : List A) → All P xs → All Q xs → All (λ x. P x × Q x) xs
All-both P Q [] h k = tt
All-both P Q (x ∷ xs) h k = ((h.0, k.0), All-both P Q xs h.1 k.1)

-- The batch is in the table, with its size.
abbrev pub Chosen : BatchRow → Db → Type 0
Chosen b d =
    (b.total_size ≡ sum_of b.batch_id d.requests)
    × (exists_row (is_batch b.batch_id) d.batches ≡ true)

pub found_Chosen :
    (max size : ℕ) (origin : String) (d : Db) (b : BatchRow)
    → Schema.find_open_batch_with_space max size origin d ≡ some b
    → IsTallied d
    → Chosen b d
unfolding Schema.find_open_batch_with_space
found_Chosen max size origin d b e h =
    least-All (λ x. Chosen x d) (λ x. x.created_at) (select (has_space max size origin) d.batches) b
      (select-All (λ x. Chosen x d) (has_space max size origin) d.batches
        (All-both _ _ d.batches h.sums (rows_found d.batches)))
      e

pub opened_Chosen :
    (id origin : String) (now : ℕ) (d : Db)
    → exists_row (is_batch id) d.batches ≡ false
    → IsTallied d
    → Chosen
        (open_batch id origin now)
        (record d { batches = d.batches ++ open_batch id origin now ∷ [] })
opened_Chosen id origin now d n h = (
  sym (no_sum id d.batches d.requests n h.known),
  exists_row-append_self (is_batch id) d.batches (open_batch id origin now) (eq_refl id),
)
