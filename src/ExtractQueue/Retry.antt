-- ===== src/ExtractQueue/Retry.antt =====
-- When a row that failed is handed out again.
use holographic_plus.Base.{
  ℕ, ◌+◌, ◌≤◌, ◌≡◌, ◌∙◌, true, false, not, ◌&&◌, Option, some, String, ◌==◌, ltb, leb, find, count,
  any, if◌then◌else◌, arith, count_by_find, find-sat,
}
use holographic_plus.ExtractQueue.Rows.{Row, Queue, LeaseOwner, has_id, is_owned, age_exceeded}
use holographic_plus.ExtractQueue.Claim.{ClaimRequest, is_candidate}
use holographic_plus.ExtractQueue.Finish.{
  failed_row, failed_status, failed_message, postponed_row, message_of, mark_failed,
  mark_quota_failed,
}
use holographic_plus.ExtractQueue.WellFormed.{IsWellFormed}
use holographic_plus.ExtractQueue.Preserved.{
  mark_failed-IsWellFormed, mark_quota_failed-IsWellFormed,
}
use holographic_plus.ExtractQueue.Reports.{mark_failed_lem, mark_quota_failed_lem}

-- The rows with this id that a call may claim.
abbrev pub claimable : ℕ → ClaimRequest → Queue → ℕ
claimable row_id c q = count (λ r. has_id row_id r && is_candidate c r) q.rows

claimable_at :
    (q : Queue) (row_id : ℕ) (c : ClaimRequest) (row : Row)
    → IsWellFormed q
    → find (has_id row_id) q.rows ≡ some row
    → claimable row_id c q ≡ (if has_id row_id row && is_candidate c row then 1 else 0)
claimable_at q row_id c row w there =
    count_by_find (has_id row_id) _ q.rows row (λ r h. ground arith) (w.ids_unique row_id) there

spent_row :
    (now attempts max_attempts : ℕ) (message : String) (c : ClaimRequest) (r : Row)
    → max_attempts ≤ attempts
    → is_candidate c
        (failed_row attempts message (failed_status now attempts max_attempts r.created_at) r)
      ≡ false
unfolding is_candidate failed_status
spent_row now attempts max_attempts message c r h = ground arith

-- On a well-formed queue, a failure that the owner of the claim reports and that uses up the
-- attempts is final: in the state that it leaves the row is claimable by no call, whatever the
-- cap, the owner, the clock and the exclusions of that call.
pub mark_failed_final :
    {q : Queue} (row_id : ℕ) (handle : Option LeaseOwner) (row : Row) (now : ℕ)
    (error : Option String) (max_attempts : ℕ) (c : ClaimRequest)
    → IsWellFormed q
    → find (has_id row_id) q.rows ≡ some row
    → is_owned row_id handle row ≡ true
    → max_attempts ≤ row.attempts + 1
    → claimable row_id c (mark_failed now row_id error max_attempts handle q).0 ≡ 0
mark_failed_final {q} row_id handle row now error max_attempts c w there owned spent =
    let after = mark_failed_lem row_id handle row w there owned now error max_attempts in
    let dies =
      spent_row now (row.attempts + 1) max_attempts (failed_message now error row.created_at) c row
        spent in
    claimable_at _ row_id c _ (mark_failed-IsWellFormed now row_id error max_attempts handle w)
      after.1
    ∙ ground (arith, dies)

postponed_candidate :
    (message : String) (not_before : ℕ) (c : ClaimRequest) (r : Row)
    → is_candidate c (postponed_row message not_before r) ≡ (
        ltb r.attempts c.max_attempts
        && leb not_before c.now
        && not (any (λ i. r.id == i) c.exclude_ids))
unfolding is_candidate
postponed_candidate message not_before c r = ground arith

-- On a well-formed queue, a row below the age cap whose owner reports a quota failure is
-- claimable exactly from the given instant on, by calls that allow its attempts, which the
-- failure did not raise, and do not exclude it.
pub mark_quota_failed_waits :
    {q : Queue} (row_id : ℕ) (handle : Option LeaseOwner) (row : Row) (now : ℕ)
    (error : Option String) (not_before : ℕ) (c : ClaimRequest)
    → IsWellFormed q
    → find (has_id row_id) q.rows ≡ some row
    → is_owned row_id handle row ≡ true
    → age_exceeded now row.created_at ≡ false
    → claimable row_id c (mark_quota_failed now row_id error not_before handle q).0 ≡ (
        if ltb row.attempts c.max_attempts
          && leb not_before c.now
          && not (any (λ i. row.id == i) c.exclude_ids)
        then 1
        else 0)
mark_quota_failed_waits {q} row_id handle row now error not_before c w there owned young =
    let after = mark_quota_failed_lem row_id handle row w there owned now error not_before young in
    let same : has_id row_id row ≡ true = find-sat (has_id row_id) q.rows there in
    claimable_at _ row_id c _ (mark_quota_failed-IsWellFormed now row_id error not_before handle w)
      after.1
    ∙ rw (postponed_candidate (message_of error) not_before c row) (rw same)
