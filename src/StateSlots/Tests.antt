-- ===== src/StateSlots/Tests.antt =====
-- Runs of the decisions and of the conflict operations on small data.
use holographic_plus.Base.{
  ℕ, ◌≡◌, ◌≢◌, ◌≤◌, refl, String, true, false, Option, none, some, List, [], ◌∷◌, find, count,
  select, update_where, str_eq, strip, if◌then◌else◌, ok, raise, value_error,
}
use holographic_plus.Timestamps.{FromIso, parse_timestamp, intervals_overlap}
use holographic_plus.FactStore.{Fact, Store, empty, index_holds, is_indexed}
use holographic_plus.StateSlots.Keys.{required, normalize_subject_key, normalize_predicate_key}
use holographic_plus.StateSlots.Canonical.{normalize_predicate_key-again}
use holographic_plus.StateSlots.Candidate.{
  StateCandidate, CurrentStateFact, SlotDecision, add, dedup, supersede, conflict,
}
use holographic_plus.Exec.{◌>>=◌}
use holographic_plus.StateSlots.Reads.{is_open, current_state_facts, believed_state_facts, view}
use holographic_plus.StateSlots.Decide.{
  with_times, max_authority, decision, decide_state_write, is_contested, is_same_value,
  overlapping_facts,
}
use holographic_plus.StateSlots.Authority.{IsBased, IsSupersession, outranks, supersede_outranks}
use holographic_plus.StateSlots.Freshness.{IsNotOlder, settled-IsNotOlder}
use holographic_plus.StateSlots.Disputes.{contested_stays, add_is_free}
use holographic_plus.StateSlots.Conflicts.{
  Ambient, ConflictRecord, write_conflict, open_state_conflict, is_among, join_conflict,
}
use holographic_plus.StateSlots.Tables.{
  in_order, members_of, insert_conflict, update_facts, insert_members, update_conflicts,
}
use holographic_plus.StateSlots.Resolve.{
  ResolveRequest, ConflictResolution, resolve_state_conflict, is_loser, any_conflict, losers_of,
}
use holographic_plus.StateSlots.Index.{UniqueSlots, index_holds→UniqueSlots}
use holographic_plus.StateSlots.Opened.{open_state_conflict-empties}
use holographic_plus.StateSlots.Settled.{
  is_retired, is_settled, is_closed, resolve_state_conflict-settles,
}
use holographic_plus.StateSlots.Closed.{resolve_twice}

unfoldable program : Unit {0}
unfolding find count select update_where str_eq strip parse_timestamp intervals_overlap index_holds
    required decide_state_write is_contested is_same_value overlapping_facts outranks
    open_state_conflict resolve_state_conflict current_state_facts believed_state_facts is_indexed
    in_order members_of losers_of is_open with_times max_authority ◌>>=◌ write_conflict
    insert_conflict update_facts insert_members is_loser update_conflicts normalize_subject_key
    normalize_predicate_key
program = tt

abbrev from_iso : FromIso
from_iso s =
    if str_eq s "d1"
    then some 1
    else if str_eq s "d2"
    then some 2
    else if str_eq s "now"
    then some 9
    else none

abbrev fact : ℕ → String → Option String → Option String → Fact
fact id content from group = record {
  fact_id = id;
  content = content;
  scope = "private";
  sensitivity = none;
  memory_kind = some "state";
  subject_key = some "user";
  predicate_key = some "editor";
  object_value = none;
  source_authority = some 5;
  created_at = none;
  valid_from = from;
  valid_to = none;
  invalid_at = none;
  expired_at = none;
  superseded_by = none;
  conflict_group = group;
  correction_status = none;
  confidence = none;
}

abbrev with_facts : List Fact → Store
with_facts facts = record empty { facts = facts }

abbrev candidate : Option String → StateCandidate
candidate from = record {
  content = "emacs";
  subject_key = "user";
  predicate_key = "editor";
  object_value = none;
  source_authority = 5;
  valid_from = from;
  memory_kind = "state";
  scope = "private";
  valid_to = none;
}

abbrev old : Fact
old = fact 1 "vim" (some "d1") none

abbrev newer : SlotDecision
newer =
    decision (candidate (some "d2")) supersede (1 ∷ []) (some 1)
      "same authority with newer validity time"

supersede_outranks_example :
    (current : List CurrentStateFact) × (overlapping : List CurrentStateFact) × IsBased from_iso
      (with_facts (old ∷ []))
      (candidate (some "d2"))
      current
      overlapping
    × IsSupersession from_iso (candidate (some "d2")) current overlapping newer
unfolding program
supersede_outranks_example =
    supersede_outranks from_iso (with_facts (old ∷ [])) (candidate (some "d2")) {d = newer} refl
      refl

settled-IsNotOlder_example :
    (f : CurrentStateFact) × (rest : List CurrentStateFact) × (view old ∷ [] ≡ f ∷ rest)
    × (newer.current_fact_ids ≡ f.fact_id ∷ [])
    × IsNotOlder from_iso (candidate (some "d2")) f
unfolding program
settled-IsNotOlder_example =
    settled-IsNotOlder from_iso (with_facts (old ∷ [])) (candidate (some "d2")) {d = newer}
      {current = view old ∷ []} {overlapping = view old ∷ []} refl
      (record { open_values = refl; overlaps = refl }) refl refl refl

abbrev disputed : Fact
disputed = fact 1 "vim" (some "d1") (some "k")

contested_stays_example : (conflict ≢ add) × (conflict ≢ dedup)
unfolding program
contested_stays_example =
    contested_stays (with_facts (disputed ∷ [])) from_iso (candidate none)
      {d = decision (candidate none) conflict (1 ∷ []) none
        "slot already has an unresolved conflict"}
      {current = view disputed ∷ []} {overlapping = view disputed ∷ []} refl
      (record { open_values = refl; overlaps = refl }) refl refl

abbrev ambient : Ambient
ambient = record {
  from_iso = from_iso;
  casefold = λ s. s;
  json_object = λ s. some s;
  utc_now = "now";
  uuid = "k";
}

one_value : UniqueSlots (with_facts (old ∷ [])).facts
unfolding program
one_value = index_holds→UniqueSlots (old ∷ []) refl

abbrev conflict_record : ConflictRecord
conflict_record = record {
  conflict_id = "k";
  scope = "private";
  subject_key = "user";
  predicate_key = "editor";
  member_fact_ids = 1 ∷ [];
  detected_at = "now";
}

abbrev after_opening : Store
after_opening =
    (open_state_conflict ambient "user" "editor" (1 ∷ []) "private" none "{}"
      (with_facts (old ∷ []))).1

open_state_conflict-empties_example :
    (count (is_indexed "private" "user" "editor") after_opening.facts ≡ 0)
    × (conflict_record.member_fact_ids ≡ 1 ∷ [])
    × (after_opening.facts ≡ update_where (is_among (1 ∷ [])) (join_conflict "k") (old ∷ []))
unfolding program
open_state_conflict-empties_example =
    open_state_conflict-empties ambient "user" "editor" (1 ∷ []) "private" none "{}"
      (with_facts (old ∷ [])) {r = conflict_record} {t = after_opening} one_value refl

abbrev in_dispute : Store
in_dispute = record empty {
  facts = disputed ∷ fact 2 "emacs" (some "d2") (some "k") ∷ [];
  conflicts =
      record {
        conflict_id = "k";
        scope = "private";
        subject_key = "user";
        predicate_key = "editor";
        detected_at = "d2";
        resolved_at = none;
        resolution_fact_id = none;
        resolved_by = none;
        resolution_reason = none;
        detail_json = "{}";
      }
      ∷ [];
  members =
      record { conflict_id = "k"; fact_id = 1 } ∷ record { conflict_id = "k"; fact_id = 2 } ∷ [];
}

abbrev ruling : ResolveRequest
ruling = record {
  conflict_id = "k";
  resolution_fact_id = 2;
  resolved_by = "owner";
  reason = "asked";
  resolved_at = none;
  resolver_client_id = none;
  resolver_session_id = none;
  resolver_agent_id = none;
}

abbrev outcome : ConflictResolution
outcome = record {
  conflict_id = "k";
  resolution_fact_id = 2;
  superseded_fact_ids = 1 ∷ [];
  resolved_by = "owner";
  reason = "asked";
  resolved_at = "now";
}

abbrev after_ruling : Store
after_ruling = (resolve_state_conflict ambient ruling in_dispute).1

ruled : resolve_state_conflict ambient ruling in_dispute ≡ (ok outcome, after_ruling)
unfolding program
ruled = refl

resolve_state_conflict-settles_example :
    (1 ≤ count (is_retired 2 (1 ∷ [])) after_ruling.facts)
    × (1 ≤ count (is_settled 2) after_ruling.facts)
    × (1 ∷ [] ≡ losers_of 2 (members_of "k" in_dispute))
    × (is_closed (any_conflict "k" after_ruling) ≡ true)
resolve_state_conflict-settles_example =
    resolve_state_conflict-settles ambient ruling in_dispute {res = outcome} {t = after_ruling}
      ruled

resolve_twice_example :
    resolve_state_conflict ambient ruling after_ruling ≡ (raise value_error, after_ruling)
resolve_twice_example =
    resolve_twice ambient ruling in_dispute {res = outcome} {t = after_ruling} ambient ruling ruled
      refl

normalize_predicate_key-again_example :
    normalize_predicate_key (λ s. s) "job_status" ≡ ok "job_status"
unfolding program
normalize_predicate_key-again_example =
    normalize_predicate_key-again (λ s. s) "job -status" {key = "job_status"} (λ s h. refl) refl

add_is_free_example :
    (current : List CurrentStateFact) × IsBased from_iso empty (candidate none) current []
    × (is_contested current ≡ false)
unfolding program
add_is_free_example =
    add_is_free empty from_iso (candidate none)
      {d = decision (candidate none) add [] none "slot has no current overlapping value"} refl refl
      refl
