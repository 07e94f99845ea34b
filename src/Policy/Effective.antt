-- ===== src/Policy/Effective.antt =====
-- What a policy grants, and what a connection is given of it.
use holographic_plus.Base.{
  ◌≡◌, refl, sym, ap, ◌∙◌, String, Bool, true, false, not, ◌&&◌, Option, none, some, List, [], ◌∷◌,
  is_empty, strip, all, select, select-select, arith, Result, ok, raise, value_error,
  permission_error, Error, require, ◌>>◌, >>=-eq-ok,
}
use holographic_plus.Policy.Scopes.{is_one_of, is_scope, validate_scope}
use holographic_plus.Policy.Grants.{
  ConnectionContext, Grants, MemoryPolicy, put, validate_scopes, distinct, is_no_scope,
  normalize_grants, make_policy, grants_of, or_unknown, authorize_context,
}

validate_scopes-ok :
    (xs : List String) {ys : List String}
    → validate_scopes xs ≡ ok ys
    → (ys ≡ xs) × (all is_scope xs ≡ true)
unfolding validate_scopes validate_scope
validate_scopes-ok [] h = (cc h, refl)
validate_scopes-ok (x ∷ xs) {ys} h =
    let (valid, first, h1) = >>=-eq-ok (validate_scope x) _ h in
    let (rest, second, h2) = >>=-eq-ok (validate_scopes xs) _ h1 in
    let (same, good) = validate_scopes-ok xs second in
    (ground (arith, first, same), ground (arith, first, good))

validate_scopes_of_all : (xs : List String) → all is_scope xs ≡ true → validate_scopes xs ≡ ok xs
unfolding validate_scopes validate_scope
validate_scopes_of_all [] h = refl
validate_scopes_of_all (x ∷ xs) h =
    let first : is_scope x ≡ true = ground arith in
    let rest : all is_scope xs ≡ true = ground arith in
    rw first (rw (validate_scopes_of_all xs rest) refl)

all-select : (p q : String → Bool) (xs : List String) → all p xs ≡ true → all p (select q xs) ≡ true
unfolding select
all-select p q [] h = refl
all-select p q (x ∷ xs) h = ground (arith, all-select p q xs)

abbrev with_scopes : ConnectionContext → List String → ConnectionContext
with_scopes context scopes = record context { access_scopes = scopes }

ok_inj : {a b : ConnectionContext} → Result.ok a ≡ ok b → a ≡ b
ok_inj h = cc h

given :
    (context : ConnectionContext) (scopes : List String) {out : ConnectionContext}
    → (require (not (is_no_scope scopes)) permission_error
        >> ok (record context { access_scopes = scopes }))
      ≡ ok out
    → (out ≡ record context { access_scopes = scopes }) × (is_no_scope scopes ≡ false)
given context [] h = cc h
given context (scope ∷ scopes) h = (sym (ok_inj h), refl)

known-some : (o : Option (List String)) {g : List String} → or_unknown o ≡ ok g → o ≡ some g
known-some none h = cc h
known-some (some g) h = cc h

-- A connection is given exactly the requested scopes that the grants of its client hold; there is
-- at least one, each is in the vocabulary, and nothing else of the context changes.
pub authorize_context-effective :
    (policy : MemoryPolicy) (extracting : Bool) (context : ConnectionContext)
    {out : ConnectionContext}
    → authorize_context policy extracting context ≡ ok out
    → (grants : List String) × (grants_of policy extracting context.client_id ≡ some grants)
      × (out ≡ record context { access_scopes = select (is_one_of grants) context.access_scopes })
      × (is_no_scope out.access_scopes ≡ false)
      × (all is_scope out.access_scopes ≡ true)
unfolding authorize_context
authorize_context-effective policy extracting context {out} h =
    let (grants, known, h1) =
      >>=-eq-ok (or_unknown (grants_of policy extracting context.client_id)) _ h in
    let (requested, valid, h2) = >>=-eq-ok (validate_scopes context.access_scopes) _ h1 in
    let (same, good) = validate_scopes-ok context.access_scopes valid in
    let (is_out, some_left) = given context (select (is_one_of grants) requested) h2 in
    let chosen : select (is_one_of grants) requested
        ≡ select (is_one_of grants) context.access_scopes =
      ap (select (is_one_of grants)) same in
    let scopes : out.access_scopes ≡ select (is_one_of grants) context.access_scopes =
      ap (λ (c : ConnectionContext). c.access_scopes) is_out ∙ chosen in
    (
      grants,
      known-some (grants_of policy extracting context.client_id) known,
      is_out ∙ ap (λ (scopes : List String). with_scopes context scopes) chosen,
      ap is_no_scope scopes ∙ ap is_no_scope (sym chosen) ∙ some_left,
      rw scopes (all-select is_scope (is_one_of grants) context.access_scopes good),
    )

-- What was given is given again: asking once more for the scopes of an authorized context, under
-- the same policy, returns that context.
pub authorize_context-again :
    (policy : MemoryPolicy) (extracting : Bool) (context : ConnectionContext)
    {out : ConnectionContext}
    → authorize_context policy extracting context ≡ ok out
    → authorize_context policy extracting out ≡ ok out
unfolding authorize_context
authorize_context-again policy extracting context {out} h =
    let (grants, known, is_out, some_left, good) =
      authorize_context-effective policy extracting context h in
    let same_client : out.client_id ≡ context.client_id =
      ap (λ (c : ConnectionContext). c.client_id) is_out in
    let scopes : out.access_scopes ≡ select (is_one_of grants) context.access_scopes =
      ap (λ (c : ConnectionContext). c.access_scopes) is_out in
    let again : select (is_one_of grants) out.access_scopes ≡ out.access_scopes =
      rw scopes
        (select-select (is_one_of grants) (is_one_of grants) context.access_scopes (λ s m. m)) in
    rw (same_client, known)
      (rw (validate_scopes_of_all out.access_scopes good) (rw again (rw some_left refl)))

abbrev pub is_good_item : String × List String → Bool
is_good_item (client_id, scopes) =
    not (is_empty client_id) && not (is_no_scope scopes) && all is_scope scopes

all-put :
    (p : String × List String → Bool) (key : String) (scopes : List String) (grants : Grants)
    → p (key, scopes) ≡ true
    → all p grants ≡ true
    → all p (put key scopes grants) ≡ true
unfolding put
all-put p key scopes [] h g = ground (arith, h)
all-put p key scopes ((key', scopes') ∷ rest) h g =
    ground (arith, h, all-put p key scopes rest h (ground arith))

all-distinct :
    (p : String → Bool) (seen xs : List String) → all p xs ≡ true → all p (distinct seen xs) ≡ true
unfolding distinct
all-distinct p seen [] h = refl
all-distinct p seen (x ∷ xs) h =
    ground
      (arith, all-distinct p seen xs (ground arith), all-distinct p (x ∷ seen) xs (ground arith))

require-ok : (b : Bool) (e : Error) {u : Unit {0}} → require b e ≡ ok u → b ≡ true
require-ok true e h = refl
require-ok false e h = cc h

grants_inj : {a b : Grants} → Result.ok a ≡ ok b → a ≡ b
grants_inj h = cc h

abbrev grants_in : Result MemoryPolicy → Grants
grants_in (ok policy) = policy.grants
grants_in (raise e) = []

normalize_good :
    (done items : Grants) {out : Grants}
    → all is_good_item done ≡ true
    → normalize_grants done items ≡ ok out
    → all is_good_item out ≡ true
unfolding normalize_grants
normalize_good done [] good h = rw (← (grants_inj h)) good
normalize_good done ((client_id, scopes) ∷ rest) good h =
    let (_, named, h1) = >>=-eq-ok (require (not (is_empty (strip client_id))) value_error) _ h in
    let (valid, checked, h2) = >>=-eq-ok (validate_scopes scopes) _ h1 in
    let (_, nonempty, h3) =
      >>=-eq-ok (require (not (is_no_scope (distinct [] valid))) value_error) _ h2 in
    let (same, in_vocabulary) = validate_scopes-ok scopes checked in
    let all_valid : all is_scope valid ≡ true = rw same in_vocabulary in
    let item : is_good_item (strip client_id, distinct [] valid) ≡ true = ground (
      arith,
      require-ok _ value_error named,
      require-ok _ value_error nonempty,
      all-distinct is_scope [] valid all_valid,
    ) in
    normalize_good (put (strip client_id) (distinct [] valid) done) rest
      (all-put is_good_item (strip client_id) (distinct [] valid) done item good) h3

-- A policy that was built grants to each client that it names, by a name that is not empty, at
-- least one scope, and only scopes of the vocabulary.
make_policy-grants :
    (given_grants : Grants) (correctors resolvers : List String) {policy : MemoryPolicy}
    → make_policy given_grants correctors resolvers ≡ ok policy
    → all is_good_item policy.grants ≡ true
unfolding make_policy
make_policy-grants given_grants correctors resolvers {policy} h =
    let (out, normalized, last) = >>=-eq-ok (normalize_grants [] given_grants) _ h in
    rw (← (ap grants_in last)) (normalize_good [] given_grants refl normalized)
