-- ===== src/ExtractQueue/Reports.antt =====
-- What the holder of a claim achieves with each report.
use holographic_plus.Base.{
  ℕ, ◌+◌, ◌≡◌, refl, ap, ◌∙◌, String, true, false, not, Option, none, some, List, ◌==◌, find, count,
  select, update_where, concat, arith, count_by_find, find-update, count-select, select-select,
  update-update, count-update-eq,
}
use holographic_plus.ExtractQueue.Rows.{Row, Queue, LeaseOwner, has_id, is_owned, age_exceeded}
use holographic_plus.ExtractQueue.Finish.{
  Screen, is_unchanged, holds_claim, failed_row, failed_status, failed_message, postponed_row,
  capped_row, message_of, age_cap_note, keep_first, mark_done, save_proposals, mark_failed,
  mark_quota_failed,
}
use holographic_plus.ExtractQueue.WellFormed.{IsWellFormed}

-- `is_owned` row is the one row with its id, and it passes the guard in Python.
owned-holds :
    (row_id : ℕ) (handle : Option LeaseOwner) (r : Row)
    → is_owned row_id handle r ≡ true
    → (has_id row_id r ≡ true) × (holds_claim handle r ≡ true)
unfolding is_owned holds_claim
owned-holds row_id none r h = (ground arith, ground arith)
owned-holds row_id (some handle) r h = (ground arith, ground arith)

keep_first_twice : (a b : String) (r : Row) → keep_first b (keep_first a r) ≡ keep_first a r
keep_first_twice a b r = ground arith

still_owned :
    (row_id : ℕ) (handle : Option LeaseOwner) (a : String) (r : Row)
    → is_owned row_id handle (keep_first a r) ≡ is_owned row_id handle r
unfolding is_owned
still_owned row_id handle a r = refl

module _ {q : Queue} (row_id : ℕ) (handle : Option LeaseOwner) (row : Row) (w : IsWellFormed q)
    (there : find (has_id row_id) q.rows ≡ some row)
    (owned : is_owned row_id handle row ≡ true) where
  owned_once : count (is_owned row_id handle) q.rows ≡ 1
  owned_once =
      count_by_find (has_id row_id) (is_owned row_id handle) q.rows row
        (λ r h. (owned-holds row_id handle r h).0) (w.ids_unique row_id) there
      ∙ rw owned

  unchanged_here : is_unchanged row_id handle row.attempts row ≡ true
  unfolding is_unchanged
  unchanged_here = ground arith

  unchanged_once : count (is_unchanged row_id handle row.attempts) q.rows ≡ 1
  unfolding is_unchanged
  unchanged_once =
      count_by_find (has_id row_id) (is_unchanged row_id handle row.attempts) q.rows row
        (λ r h. (owned-holds row_id handle r (ground arith)).0) (w.ids_unique row_id) there
      ∙ rw unchanged_here

  find_updated :
      (f : Row → Row)
      → ((r : Row) → (f r).id ≡ r.id)
      → find (has_id row_id) (update_where (is_unchanged row_id handle row.attempts) f q.rows)
        ≡ some (f row)
  find_updated f same =
      find-update (has_id row_id) _ f q.rows (λ r. ap (λ i. i == row_id) (same r))
      ∙ rw there (rw unchanged_here)

  -- On a well-formed queue, a failure that the owner of a claim reports counts one attempt.
  -- The row is left with the message and the status that its age and its attempts give it, and
  -- without its lease.
  pub mark_failed_lem :
      (now : ℕ) (error : Option String) (max_attempts : ℕ)
      → ((mark_failed now row_id error max_attempts handle q).1 ≡ row.attempts + 1)
        × (find (has_id row_id) (mark_failed now row_id error max_attempts handle q).0.rows
            ≡ some (
                failed_row
                  (row.attempts + 1)
                  (failed_message now error row.created_at)
                  (failed_status now (row.attempts + 1) max_attempts row.created_at)
                  row))
  unfolding mark_failed
  mark_failed_lem now error max_attempts =
      let mine = (owned-holds row_id handle row owned).1 in
      (
        rw (there, mark_failed) (rw (mine, unchanged_once)),
        rw (there, mark_failed) (rw mine (find_updated _ (λ r. refl))),
      )

  -- A quota failure of a row below the age cap consumes no attempt: the row is pending again, not
  -- before the given instant.
  pub mark_quota_failed_lem :
      (now : ℕ) (error : Option String) (not_before : ℕ)
      → age_exceeded now row.created_at ≡ false
      → ((mark_quota_failed now row_id error not_before handle q).1 ≡ true)
        × (find (has_id row_id) (mark_quota_failed now row_id error not_before handle q).0.rows
            ≡ some (postponed_row (message_of error) not_before row))
  unfolding mark_quota_failed
  mark_quota_failed_lem now error not_before young =
      let mine = (owned-holds row_id handle row owned).1 in
      (
        rw (there, mark_quota_failed) (rw mine (rw young (rw unchanged_once))),
        rw (there, mark_quota_failed) (rw mine (rw young (find_updated _ (λ r. refl)))),
      )

  -- On a well-formed queue, a quota failure that the owner of a claim reports of a row past
  -- the age cap answers False and makes the row dead, with the cap in its message and without
  -- its lease.
  mark_quota_failed_old :
      (now : ℕ) (error : Option String) (not_before : ℕ)
      → age_exceeded now row.created_at ≡ true
      → ((mark_quota_failed now row_id error not_before handle q).1 ≡ false)
        × (find (has_id row_id) (mark_quota_failed now row_id error not_before handle q).0.rows
            ≡ some (capped_row (concat (message_of error) age_cap_note) row))
  unfolding mark_quota_failed
  mark_quota_failed_old now error not_before old =
      let mine = (owned-holds row_id handle row owned).1 in
      (
        rw (there, mark_quota_failed) (rw mine (rw old)),
        rw (there, mark_quota_failed) (rw mine (rw old (find_updated _ (λ r. refl)))),
      )

  -- On a well-formed queue, completion by the owner of a claim answers True, removes its row,
  -- and changes no row with another id.
  mark_done_lem :
      ((mark_done row_id handle q).1 ≡ true)
      × (count (has_id row_id) (mark_done row_id handle q).0.rows ≡ 0)
      × (select (λ r. not (has_id row_id r)) (mark_done row_id handle q).0.rows
          ≡ select (λ r. not (has_id row_id r)) q.rows)
  unfolding mark_done
  mark_done_lem = (
    rw owned_once,
    count-select (has_id row_id) _ q.rows
        ∙ count_by_find (has_id row_id) _ q.rows row (λ r h. ground arith) (w.ids_unique row_id)
            there
        ∙ rw owned,
    select-select _ _ q.rows (λ r h. ground (arith, owned-holds row_id handle r)),
  )

  -- On a well-formed queue, the first proposals that the owner of a claim saves are answered
  -- True, and a second save through the same handle is too but changes nothing.
  save_proposals_twice :
      {P : Type 0} (screen : Screen P) (first second : List P)
      → let q' = (save_proposals screen row_id first handle q).0 in
        ((save_proposals screen row_id first handle q).1 ≡ true)
        × (save_proposals screen row_id second handle q' ≡ (q', true))
  unfolding save_proposals
  save_proposals_twice screen first second =
      let a = screen.json (select (λ p. not (screen.credential_shaped p)) first) in
      let b = screen.json (select (λ p. not (screen.credential_shaped p)) second) in
      let again =
        update-update (is_owned row_id handle) (keep_first a) (keep_first b) q.rows
          (λ r h. still_owned row_id handle a r ∙ h) (keep_first_twice a b) in
      let still =
        count-update-eq (is_owned row_id handle) (is_owned row_id handle) (keep_first a) q.rows
          (λ r h. still_owned row_id handle a r) in
      (rw owned_once, rw again (rw still (rw owned_once)))
