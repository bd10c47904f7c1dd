-- ===== src/Brokerd/Mirror.antt =====
-- The invariant that requests mirror their batches, and what the statements on both tables do to it.
use broker_core.Base.{
  ◌≡◌, Bool, true, false, Option, none, some, List, ◌++◌, inl, inr, str_eq, eq_iff, if◌then◌else◌,
  All, All-map, Option-cases,
}
use broker_core.Base.Rows.{
  select_one, update_rows, All-update_rows, select_one-append, select_one-update_rows,
  select_one-test,
}
use broker_core.Brokerd.Types.{Ident, BatchStatus, RequestStatus}
use broker_core.Brokerd.Schema.{BatchRow, RequestRow, Db}
use broker_core.Brokerd.Schema.Statements.{has_id, in_batch, in_batch_by}

-- The request's status is one that the batch's status allows. The requests of a failed batch are in
-- error or wait to be batched again.
abbrev pub mirrors : BatchStatus → RequestStatus → Bool
mirrors BatchStatus.preparing RequestStatus.preparing = true
mirrors BatchStatus.auctioning RequestStatus.auctioning = true
mirrors BatchStatus.deal_making RequestStatus.deal_making = true
mirrors BatchStatus.success RequestStatus.success = true
mirrors BatchStatus.error RequestStatus.error = true
mirrors BatchStatus.error RequestStatus.batching = true
mirrors _ _ = false

abbrev pub Matches : Option BatchRow → RequestStatus → Type 0
Matches none s = ⊥
Matches (some b) s = mirrors b.status s ≡ true

abbrev pub MatchesIn : List BatchRow → RequestStatus → Option Ident → Type 0
MatchesIn bs s none = Unit
MatchesIn bs s (some i) = Matches (select_one (has_id i) bs) s

-- A request that is in a batch is in one that exists, and mirrors it.
abbrev pub RowMirrors : List BatchRow → RequestRow → Type 0
RowMirrors bs r = MatchesIn bs r.status r.batch_id

pub record IsMirrored (d : Db) : Type 0 where
  pub rows : All (RowMirrors d.batches) d.requests

-- A new batch disturbs no request.
Matches-append :
    (i : Ident) (s : RequestStatus) (bs cs : List BatchRow)
    → Matches (select_one (has_id i) bs) s
    → Matches (select_one (has_id i) (bs ++ cs)) s
Matches-append i s bs cs h = elim (Option-cases (select_one (has_id i) bs)) [
  | inl e ↦ absurd (rw e at h)
  | inr (b, e) ↦ rw (select_one-append (has_id i) bs cs, e) (rw e at h)
]

MatchesIn-append :
    (s : RequestStatus) (o : Option Ident) (bs cs : List BatchRow)
    → MatchesIn bs s o
    → MatchesIn (bs ++ cs) s o
MatchesIn-append s none bs cs h = tt
MatchesIn-append s (some i) bs cs h = Matches-append i s bs cs h

pub RowMirrors-append :
    (bs cs : List BatchRow) (rs : List RequestRow)
    → All (RowMirrors bs) rs
    → All (RowMirrors (bs ++ cs)) rs
RowMirrors-append bs cs rs h =
    All-map (RowMirrors bs) (RowMirrors (bs ++ cs)) rs
      (λ r. MatchesIn-append r.status r.batch_id bs cs) h

-- What an update of one batch's row does to the row of any id.
module _ (id : Ident) (st : BatchStatus) (f : BatchRow → BatchRow)
    (keeps_id : (b : BatchRow) → (f b).id ≡ b.id) (sets : (b : BatchRow) → (f b).status ≡ st) where
  found_after :
      (j : Ident) (bs : List BatchRow)
      → select_one (has_id j) (update_rows (has_id id) f bs) ≡ elim (select_one (has_id j) bs) [
        | none ↦ none
        | some x ↦ some (if has_id id x then f x else x)
      ]
  found_after j bs = select_one-update_rows (has_id j) (has_id id) f bs (λ x. rw (keeps_id x))

  hit_Matches :
      (s : RequestStatus) (s' : RequestStatus) (bs : List BatchRow)
      → mirrors st s ≡ true
      → Matches (select_one (has_id id) bs) s'
      → Matches (select_one (has_id id) (update_rows (has_id id) f bs)) s
  hit_Matches s s' bs m h = elim (Option-cases (select_one (has_id id) bs)) [
    | inl e ↦ absurd (rw e at h)
    | inr (b, e) ↦ rw (found_after id bs, e, select_one-test (has_id id) bs b e, sets b) m
  ]

  miss_Matches :
      (j : Ident) (s : RequestStatus) (bs : List BatchRow)
      → str_eq j id ≡ false
      → Matches (select_one (has_id j) bs) s
      → Matches (select_one (has_id j) (update_rows (has_id id) f bs)) s
  miss_Matches j s bs n h = elim (Option-cases (select_one (has_id j) bs)) [
    | inl e ↦ absurd (rw e at h)
    | inr (b, e) ↦
        let bj : b.id ≡ j = (eq_iff b.id j).0 (select_one-test (has_id j) bs b e) in
        let nb : str_eq b.id id ≡ false = rw bj n in rw (found_after j bs, e, nb) (rw e at h)
  ]

  hit_MatchesIn :
      (s s' : RequestStatus) (o : Option Ident) (bs : List BatchRow)
      → mirrors st s ≡ true
      → in_batch_by o id ≡ true
      → MatchesIn bs s' o
      → MatchesIn (update_rows (has_id id) f bs) s o
  hit_MatchesIn s s' none bs m e h = tt
  hit_MatchesIn s s' (some j) bs m e h =
      let p : j ≡ id = (eq_iff j id).0 e in rw p (hit_Matches s s' bs m (rw p at h))

  miss_MatchesIn :
      (s : RequestStatus) (o : Option Ident) (bs : List BatchRow)
      → in_batch_by o id ≡ false
      → MatchesIn bs s o
      → MatchesIn (update_rows (has_id id) f bs) s o
  miss_MatchesIn s none bs e h = tt
  miss_MatchesIn s (some j) bs e h = miss_Matches j s bs e h

  -- A batch and its requests are moved together to statuses that mirror one another.
  pub moved_RowMirrors :
      (s : RequestStatus) (bs : List BatchRow) (rs : List RequestRow)
      → mirrors st s ≡ true
      → All (RowMirrors bs) rs
      → All
          (RowMirrors (update_rows (has_id id) f bs))
          (update_rows (in_batch id) (λ r. record r { status = s }) rs)
  moved_RowMirrors s bs rs m h =
      All-update_rows (RowMirrors bs) (RowMirrors (update_rows (has_id id) f bs)) (in_batch id)
        (λ r. record r { status = s }) rs (λ r e k. hit_MatchesIn s r.status r.batch_id bs m e k)
        (λ r e k. miss_MatchesIn r.status r.batch_id bs e k) h
