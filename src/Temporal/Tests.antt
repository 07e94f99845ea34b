-- ===== src/Temporal/Tests.antt =====
-- Runs of the temporal operations on small data.
use holographic_plus.Base.{
  ℕ, ◌≡◌, ◌⊎◌, refl, String, true, false, Option, none, some, [], ◌∷◌, find, count, select,
  update_where, str_eq, strip, if◌then◌else◌, arith,
}
use holographic_plus.Timestamps.{FromIso, parse_clock}
use holographic_plus.FactStore.{Fact, Store, empty}
use holographic_plus.Temporal.Words.{state_words_all}
use holographic_plus.Temporal.Updates.{is_value_update, find_value_update_target, Candidate}
use holographic_plus.Temporal.Restatement.{restatement_is_no_update}
use holographic_plus.Temporal.Symmetry.{is_value_update_sym}
use holographic_plus.Temporal.Supersede.{supersede, is_protected}
use holographic_plus.Temporal.Superseded.{HasKey, supersede_spares, supersede_twice}
use holographic_plus.Temporal.Retired.{IsSuperseded, supersede_outcome}
use holographic_plus.Temporal.AsOf.{row_matches_as_of}

unfoldable program : Unit {0}
unfolding count find select update_where str_eq strip parse_clock supersede is_protected
    find_value_update_target row_matches_as_of state_words_all
program = tt

abbrev from_iso : FromIso
from_iso s =
    if str_eq s "d1"
    then some 1
    else if str_eq s "d2"
    then some 2
    else if str_eq s "d3"
    then some 3
    else none

abbrev fact : ℕ → String → Option String → Option String → Fact
fact id content kind from = record {
  fact_id = id;
  content = content;
  scope = "private";
  sensitivity = none;
  memory_kind = kind;
  subject_key = none;
  predicate_key = none;
  object_value = none;
  source_authority = none;
  created_at = some "d1";
  valid_from = from;
  valid_to = none;
  invalid_at = none;
  expired_at = none;
  superseded_by = none;
  conflict_group = none;
  correction_status = none;
  confidence = none;
}

abbrev old : Fact
old = fact 1 "port 3100" none (some "d1")

abbrev store : Store
store = record empty {
  facts = old ∷ fact 2 "port 3200" none (some "d2") ∷ fact 3 "typed" (some "state") none ∷ [];
}

abbrev text_lower : String → String
text_lower s = s

abbrev candidate : String → Candidate
candidate content = record {
  content = content;
  superseded_by = none;
  memory_kind = none;
  conflict_group = none;
}

found_target :
    find_value_update_target text_lower "port 3200"
      (candidate "disk full" ∷ candidate "port 3100" ∷ [])
    ≡ some (candidate "port 3100")
unfolding program
found_target = refl

restatement_is_no_update_example : is_value_update text_lower "port: 3100!" "port 3100" ≡ false
unfolding program
restatement_is_no_update_example =
    restatement_is_no_update text_lower "port: 3100!" "port 3100" refl

is_value_update_sym_example :
    is_value_update text_lower "port 3200" "port 3100"
    ≡ is_value_update text_lower "port 3100" "port 3200"
is_value_update_sym_example = is_value_update_sym text_lower "port 3200" "port 3100"

store-HasKey : HasKey store
unfolding program
store-HasKey i = ground arith

supersede_spares_example :
    select is_protected (supersede "d3" 1 2 store).0.facts ≡ select is_protected store.facts
supersede_spares_example = supersede_spares "d3" 1 2 store store-HasKey

supersede_outcome_example :
    (supersede "d3" 1 2 store ≡ (store, false))
    ⊎ (((supersede "d3" 1 2 store).1 ≡ true)
        × IsSuperseded "d3" 1 2 store (supersede "d3" 1 2 store).0)
supersede_outcome_example = supersede_outcome "d3" 1 2 store store-HasKey

supersede_twice_example :
    let s' = (supersede "d2" 1 2 store).0 in supersede "d3" 1 3 s' ≡ (s', false)
supersede_twice_example = supersede_twice "d2" "d3" 1 2 3 store
