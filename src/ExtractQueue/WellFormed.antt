-- ===== src/ExtractQueue/WellFormed.antt =====
-- The invariant of the table: its key, its partial unique index and its leases; and the rule by
-- which an update keeps it.
use holographic_plus.Base.{
  ℕ, ◌≤◌, ◌<◌, ◌≡◌, refl, ap, String, Bool, true, ◌||◌, is_none, is_some, if◌then◌else◌, count,
  select, update_where, count-update-le, count-update-eq, count-select-le, arith, ◌==◌,
}
use holographic_plus.ExtractQueue.Rows.{Row, Queue, empty, is_processing, has_id}
use holographic_plus.ExtractQueue.Enqueue.{is_active_hash}

-- A processing row has an owner and a deadline; any other row has neither.
unfoldable pub breaks_lease : Row → Bool
unfolding is_processing
breaks_lease r =
    if is_processing r.status
    then is_none r.lease_owner || is_none r.lease_until
    else is_some r.lease_owner || is_some r.lease_until

pub record IsWellFormed (q : Queue) : Type 0 where
  pub ids_unique : (i : ℕ) → count (has_id i) q.rows ≤ 1
  pub ids_bounded : (i : ℕ) → q.last_id < i → count (has_id i) q.rows ≡ 0
  pub hashes_unique : (h : String) → count (is_active_hash h) q.rows ≤ 1
  pub leases_kept : count breaks_lease q.rows ≡ 0

pub empty-IsWellFormed : IsWellFormed empty
unfolding count
empty-IsWellFormed = record {
  ids_unique = λ i. omega arith;
  ids_bounded = λ i h. refl;
  hashes_unique = λ h. omega arith;
  leases_kept = refl;
}

-- An update keeps the invariant if it keeps the keys, writes proper leases, and the index allows
-- the rows that it activates.
pub update_general :
    {q : Queue} (p : Row → Bool) (f : Row → Row)
    → IsWellFormed q
    → ((r : Row) → (f r).id ≡ r.id)
    → ((h : String) → count (is_active_hash h) (update_where p f q.rows) ≤ 1)
    → ((r : Row) → p r ≡ true → breaks_lease (f r) ≡ true → breaks_lease r ≡ true)
    → IsWellFormed (record q { rows = update_where p f q.rows })
update_general {q} p f w ids hashes leases = record {
  ids_unique = λ i. omega (arith, same_ids i, w.ids_unique i);
  ids_bounded = λ i h. omega (arith, same_ids i, w.ids_bounded i h);
  hashes_unique = hashes;
  leases_kept = omega (arith, count-update-le breaks_lease p f q.rows leases, w.leases_kept);
}
  where
    same_ids : (i : ℕ) → count (has_id i) (update_where p f q.rows) ≡ count (has_id i) q.rows
    same_ids i = count-update-eq (has_id i) p f q.rows (λ r c. ap (λ k. k == i) (ids r))

-- An update that activates no row and changes no hash.
pub update-IsWellFormed :
    {q : Queue} (p : Row → Bool) (f : Row → Row)
    → IsWellFormed q
    → ((r : Row) → (f r).id ≡ r.id)
    → ((r : Row) (h : String)
        → p r ≡ true
        → is_active_hash h (f r) ≡ true
        → is_active_hash h r ≡ true)
    → ((r : Row) → p r ≡ true → breaks_lease (f r) ≡ true → breaks_lease r ≡ true)
    → IsWellFormed (record q { rows = update_where p f q.rows })
update-IsWellFormed {q} p f w ids hashes leases =
    update_general p f w ids
      (λ h.
        omega (
          arith,
          count-update-le (is_active_hash h) p f q.rows (λ r. hashes r h),
          w.hashes_unique h,
        ))
      leases

pub delete-IsWellFormed :
    {q : Queue} (p : Row → Bool)
    → IsWellFormed q
    → IsWellFormed (record q { rows = select p q.rows })
delete-IsWellFormed {q} p w = record {
  ids_unique = λ i. omega (arith, count-select-le (has_id i) p q.rows, w.ids_unique i);
  ids_bounded = λ i h. omega (arith, count-select-le (has_id i) p q.rows, w.ids_bounded i h);
  hashes_unique =
      λ h. omega (arith, count-select-le (is_active_hash h) p q.rows, w.hashes_unique h);
  leases_kept = omega (arith, count-select-le breaks_lease p q.rows, w.leases_kept);
}
