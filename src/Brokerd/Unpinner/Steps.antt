-- ===== src/Brokerd/Unpinner/Steps.antt =====
-- The turns of the unpin daemon keep the jobs.
use broker_core.Base.{
  ℕ, ◌+◌, ◌≡◌, refl, subst, String, Bool, true, false, Option, none, some, List, [], ◌∷◌, arith,
}
use broker_core.Effects.{unavailable, World, Result, ok, err, panicked, done}
use broker_core.Effects.Triple.{
  Triple, Keeping, OnSuccess, OnOk, Post, Triple-map, Triple-pure, Triple-raise, Triple-gets,
  Triple-if, Triple-bind, Triple-require, Triple-publish, Triple-exec, Triple-exec_returning,
  Triple-logged, Triple-succeeds, Triple-caught_ok,
}
use broker_core.Brokerd.Types.{Ident}
use broker_core.Brokerd.Schema.{Db, UnpinJobRow}
use broker_core.Brokerd.Unpinner
use broker_core.Brokerd.Unpinner.{
  Env, unpin_cid, unless_skipped, unpin_job_get_next, unpin_job_move_to_pending, retry_later,
  finish, unpin_job, unpin_next,
}
use broker_core.Brokerd.Unpinner.Jobs.{
  Kept, IsDone, OnSome, Kept-update, Kept-lease, Kept-delete, Kept-publish, All-select,
  first_by-All,
}

module _ (env : Env) (cid_of : Ident → String) (js : List UnpinJobRow) where
  abbrev J : Db → List String → Type 0
  J = Kept env cid_of js

  abbrev Unpinned : String → Db → List String → Type 0
  Unpinned c d cs = J d cs × IsDone env cid_of js c cs

  same : (d : Db) (cs : List String) → J d cs → J d cs
  same d cs h = h

  move_to_pending-Triple :
      (i : Ident) (delay : ℕ) → Triple J (Keeping J) J (unpin_job_move_to_pending i delay)
  unfolding unpin_job_move_to_pending Unpinner.unpin_job_to_pending
  move_to_pending-Triple i delay =
      Triple-bind J (Keeping J) (Keeping J) J _ _ (Triple-gets J (Keeping J) J _ (λ _ d cs h. h))
        λ now.
          Triple-exec J J same (Keeping J) _
            (λ d cs h. Kept-update env cid_of js _ _ d cs (λ x. refl) (λ x. refl) h)

  retry_later-Triple : (j : UnpinJobRow) → Triple J (Keeping J) J (retry_later env j)
  unfolding retry_later
  retry_later-Triple j =
      Triple-bind J (Keeping J) (Keeping J) J _ _
        (Triple-logged J J _ (move_to_pending-Triple j.id env.retry_delay))
        λ _. Triple-pure J (Keeping J) J true same

  unless_skipped-Triple :
      (c : String) (b : Bool)
      → Triple (OnSuccess J J (Unpinned c) b) (Keeping (Unpinned c)) J (unless_skipped env c b)
  unfolding unless_skipped done
  unless_skipped-Triple c true = Triple-pure _ (Keeping (Unpinned c)) J tt (λ _ _ h. h)
  unless_skipped-Triple c false =
      Triple-if J (Keeping (Unpinned c)) J (env.skips c) _ _
        (λ e. Triple-pure J (Keeping (Unpinned c)) J tt (λ d cs h. (h, ground (arith, e))))
        (λ _. Triple-raise J (Keeping (Unpinned c)) J unavailable same)

  unpin_cid-Triple : (j : UnpinJobRow) → Triple J (Keeping (Unpinned j.cid)) J (unpin_cid env j)
  unfolding unpin_cid
  unpin_cid-Triple j =
      Triple-bind J (Keeping J) (Keeping (Unpinned j.cid)) J _ _
        (Triple-map J _ J _ _ (λ _ _ _ h. h.1) (Triple-require J J same _ _))
        λ _.
          Triple-bind J (OnSuccess J J (Unpinned j.cid)) (Keeping (Unpinned j.cid)) J _ _
            (Triple-succeeds J J (Unpinned j.cid) _ (
              Triple-publish J J same (Keeping (Unpinned j.cid)) j.cid
                (λ d cs h. Kept-publish env cid_of js j.cid d cs h)))
            λ b. unless_skipped-Triple j.cid b

  finish-Triple :
      (j : UnpinJobRow) (b : Bool)
      → j.cid ≡ cid_of j.id
      → Triple (OnSuccess J J (Unpinned j.cid) b) (Keeping J) J (finish env j b)
  unfolding finish
  finish-Triple j false e = retry_later-Triple j
  finish-Triple j true e =
      Triple-bind (Unpinned j.cid) (Keeping J) (Keeping J) J _ _
        (Triple-map (Unpinned j.cid) (OnSuccess J J J) J _ _ (either) (
          Triple-succeeds (Unpinned j.cid) J J _ (
            Triple-exec (Unpinned j.cid) J (λ _ _ h. h.0) (Keeping J) _
              (λ d cs h.
                Kept-delete env cid_of js j.id d cs (subst (λ c. IsDone env cid_of js c cs) e h.1)
                  h.0))))
        λ deleted.
          Triple-if J (Keeping J) J deleted _ _ (λ _. Triple-pure J (Keeping J) J true same)
            (λ _. retry_later-Triple j)
    where
      either : (b : Bool) (d : Db) (cs : List String) → OnSuccess J J J b d cs → J d cs
      either true d cs h = h
      either false d cs h = h

  -- The job that has been picked has the cid of its id.
  abbrev Picked : Option UnpinJobRow → Db → List String → Type 0
  Picked o d cs = J d cs × OnSome (λ j. j.cid ≡ cid_of j.id) o

  get_next-Triple : Triple J Picked J unpin_job_get_next
  unfolding unpin_job_get_next Unpinner.next_unpin_job
  get_next-Triple =
      Triple-bind J (Keeping J) Picked J _ _ (Triple-gets J (Keeping J) J _ (λ _ d cs h. h)) λ now.
        Triple-exec_returning J J same Picked _ (λ d cs h. (
          Kept-lease env cid_of js now _ d cs h,
          first_by-All _ _ _ (All-select _ _ d.unpin_jobs h.cids),
        ))

  unpin_job-Triple :
      (x : Result (Option UnpinJobRow)) → Triple (OnOk J J Picked x) (Keeping J) J (unpin_job env x)
  unfolding unpin_job
  unpin_job-Triple (ok (some j)) = record {
    at = λ w h.
        (Triple-bind J (OnSuccess J J (Unpinned j.cid)) (Keeping J) J _ _
            (Triple-succeeds J J (Unpinned j.cid) _ (unpin_cid-Triple j))
            (λ b. finish-Triple j b h.1)).at
          w h.0;
  }
  unpin_job-Triple (ok none) = Triple-pure (Picked none) (Keeping J) J false (λ _ _ h. h.0)
  unpin_job-Triple (err e) = Triple-pure J (Keeping J) J false same
  unpin_job-Triple panicked = Triple-pure J (Keeping J) J false same

  unpin_next-Triple : Triple J (Keeping J) J (unpin_next env)
  unfolding unpin_next
  unpin_next-Triple =
      Triple-bind J (OnOk J J Picked) (Keeping J) J _ _
        (Triple-caught_ok J J Picked _ get_next-Triple) λ x. unpin_job-Triple x

-- Any number of turns, at any times.
unfoldable pub unpin_all : Env → List ℕ → World Db String → World Db String
unpin_all env [] w = w
unpin_all env (n ∷ ns) w = unpin_all env ns (unpin_next env (record w { now = w.now + n })).1

Post-Kept :
    (env : Env) (cid_of : Ident → String) (js : List UnpinJobRow)
    (r : Result Bool × World Db String)
    → Post (Keeping (Kept env cid_of js)) (Kept env cid_of js) r
    → Kept env cid_of js r.1.db r.1.sent
Post-Kept env cid_of js (ok _, w) h = h
Post-Kept env cid_of js (err e, w) h = h
Post-Kept env cid_of js (panicked, w) h = h

-- After any number of turns of the unpin daemon at any times, with any failures of its statements and of
-- the IPFS node, each of the unpin jobs `js` is still there, or its cid has been unpinned, or the node
-- answers for it with the error that the code takes for data unpinned already; and jobs with the same id
-- have the same cid. Both hold if they hold before the turns.
pub unpin_all-Kept :
    (env : Env) (cid_of : Ident → String) (js : List UnpinJobRow) (ns : List ℕ)
    (w : World Db String)
    → Kept env cid_of js w.db w.sent
    → Kept env cid_of js (unpin_all env ns w).db (unpin_all env ns w).sent
unfolding unpin_all
unpin_all-Kept env cid_of js [] w h = h
unpin_all-Kept env cid_of js (n ∷ ns) w h =
    unpin_all-Kept env cid_of js ns (unpin_next env (record w { now = w.now + n })).1 (
      Post-Kept env cid_of js _
        ((unpin_next-Triple env cid_of js).at (record w { now = w.now + n }) h))
