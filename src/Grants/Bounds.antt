-- ===== src/Grants/Bounds.antt =====
-- No grant lasts longer than an hour from now, whatever calls are made.
use secretd.Prelude.{
  ℕ, ◌+◌, ◌*◌, ◌≤◌, ◌≡◌, refl, ◌∙◌, Bool, true, false, none, some, List, [], ◌∷◌, arith, min, All,
  All-append, All-retain, All-remove_first, All-update_first, retain, find, update_first,
  Bool-cases, inl, inr,
}
use secretd.Prelude.Text.{Text, same_text_iff}
use secretd.Prelude.Word.{u64_max}
use secretd.Process.{ProcessIdentity}
use secretd.Grants.Defs.{
  Grant, GrantStore, add_grant, cleanup, find_grant, list_grants, revoke, extend, extend_one,
  is_live, has_id,
}

abbrev pub hour : ℕ
hour = 60 * 60 * 1000

abbrev pub EndsWithinHour : ℕ → Grant → Type 0
EndsWithinHour now grant = grant.expires_at ≤ now + hour

abbrev pub IsBounded : ℕ → GrantStore → Type 0
IsBounded now store = All (EndsWithinHour now) store.grants

-- The public methods, each with its arguments.
pub data Call : Type 0 where
  adds : Text → ProcessIdentity → ℕ → Text → Call
  finds : Text → List ProcessIdentity → Call
  lists : Call
  revokes : Text → Call
  -- the pause between the two readings of the clock
  extends : Text → ℕ → Call

-- The store and the time after a call at a given time.
unfoldable pub step : ℕ → Call → GrantStore → GrantStore × ℕ
step now (adds resource process seconds id) store =
    ((add_grant resource process seconds now id store).1, now)
step now (finds secret tree) store = ((find_grant now secret tree store).1, now)
step now lists store = ((list_grants now store).1, now)
step now (revokes id) store = ((revoke id store).1, now)
step now (extends id pause) store = ((extend now (now + pause) id store).1, now + pause)

-- Calls with the time that passes before each.
unfoldable pub run : ℕ → List (ℕ × Call) → GrantStore → GrantStore × ℕ
run now [] store = (store, now)
run now ((delay, call) ∷ calls) store =
    let (store', later) = step (now + delay) call store in run later calls store'

IsBounded-later :
    (now delay : ℕ) (grants : List Grant)
    → All (EndsWithinHour now) grants
    → All (EndsWithinHour (now + delay)) grants
IsBounded-later now delay [] h = tt
IsBounded-later now delay (grant ∷ grants) h =
    (omega (arith, h.0), IsBounded-later now delay grants h.1)

add_grant-IsBounded :
    (resource : Text) (process : ProcessIdentity) (seconds now : ℕ) (id : Text) (store : GrantStore)
    → IsBounded now store
    → IsBounded now (add_grant resource process seconds now id store).1
unfolding add_grant
add_grant-IsBounded resource process seconds now id store h = ground (
  arith,
  All-append (EndsWithinHour now) store.grants
      (record {
        id = id;
        resource = resource;
        process = process;
        created_at = now;
        expires_at = min (now + min (seconds * 1000) u64_max) u64_max;
      }
        ∷ [])
      h,
)

extend_one-EndsWithinHour :
    (now : ℕ) (grant : Grant) → EndsWithinHour now grant → EndsWithinHour now (extend_one now grant)
extend_one-EndsWithinHour now grant h = omega arith

step-IsBounded :
    (now : ℕ) (call : Call) (store : GrantStore)
    → IsBounded now store
    → IsBounded (step now call store).1 (step now call store).0
unfolding step find_grant list_grants revoke extend
step-IsBounded now (adds resource process seconds id) store h =
    add_grant-IsBounded resource process seconds now id store h
step-IsBounded now (finds secret tree) store h =
    All-retain (EndsWithinHour now) (is_live now) store.grants h
step-IsBounded now lists store h = All-retain (EndsWithinHour now) (is_live now) store.grants h
step-IsBounded now (revokes id) store h =
    All-remove_first (EndsWithinHour now) (has_id id) store.grants h
step-IsBounded now (extends id pause) store h =
    All-update_first (EndsWithinHour (now + pause)) (has_id id) (extend_one (now + pause))
      (retain (is_live now) store.grants) (extend_one-EndsWithinHour (now + pause))
      (IsBounded-later now pause (retain (is_live now) store.grants)
        (All-retain (EndsWithinHour now) (is_live now) store.grants h))

-- Whatever calls are made, with any delays between them, no grant ends later than an hour after
-- the time that has then been reached, if that held at the start.
pub run-IsBounded :
    (now : ℕ) (calls : List (ℕ × Call)) (store : GrantStore)
    → IsBounded now store
    → IsBounded (run now calls store).1 (run now calls store).0
unfolding run
run-IsBounded now [] store h = h
run-IsBounded now ((delay, call) ∷ calls) store h =
    let after = step (now + delay) call store in
    run-IsBounded after.1 calls after.0
      (step-IsBounded (now + delay) call store (IsBounded-later now delay store.grants h))

-- the first element that passes, changed by a function under which the test does not change
find-update_first :
    {A : Type 0} (test : A → Bool) (f : A → A) (xs : List A) (x : A)
    → ((y : A) → test (f y) ≡ test y)
    → find test xs ≡ some x
    → find test (update_first test f xs) ≡ some (f x)
unfolding find update_first
find-update_first test f [] x same e = cc
find-update_first test f (y ∷ ys) x same e =
    ground (arith, find-update_first test f ys x same, same y, same x)

-- A grant that is live and the first of its ID ends, after an extension, fifteen minutes later
-- than before, or an hour from now if that is earlier, while no sum passes the limit of `u64`; its
-- ID, resource, process and time of creation stay.
pub extend_live :
    (cleaned now : ℕ) (id : Text) (store : GrantStore) (grant : Grant)
    → find (has_id id) (cleanup cleaned store).grants ≡ some grant
    → grant.expires_at + hour ≤ u64_max
    → now + hour ≤ u64_max
    → (extend cleaned now id store).0
      ≡ some (record grant { expires_at = min (grant.expires_at + 900_000) (now + hour) })
unfolding extend cleanup
extend_live cleaned now id store grant e small late =
    find-update_first (has_id id) (extend_one now) (retain (is_live cleaned) store.grants) grant
      (λ y. refl) e
    ∙ ground arith

find-none_of :
    {A : Type 0} (test keep : A → Bool) (f : A → A) (xs : List A)
    → All (λ x. (test x ≡ true) → keep x ≡ false) xs
    → (find test (update_first test f (retain keep xs)) ≡ none)
      × (update_first test f (retain keep xs) ≡ retain keep xs)
unfolding find update_first retain
find-none_of test keep f [] h = (refl, refl)
find-none_of test keep f (x ∷ xs) h = elim (Bool-cases (test x)) [
  | inl t ↦ let ih = find-none_of test keep f xs h.1 in rw (h.0 t) ih
  | inr t ↦
      let ih = find-none_of test keep f xs h.1 in
      elim (Bool-cases (keep x)) [ inl k ↦ ground (arith, ih) | inr k ↦ rw k ih ]
]

expired-not-live :
    (cleaned : ℕ) (id : Text) (grants : List Grant)
    → All (λ grant. grant.id ≡ id → grant.expires_at ≤ cleaned) grants
    → All (λ grant. has_id id grant ≡ true → is_live cleaned grant ≡ false) grants
expired-not-live cleaned id [] h = tt
expired-not-live cleaned id (grant ∷ grants) h = (
  λ e. let ended = h.0 ((same_text_iff grant.id id).0 e) in ground arith,
  expired-not-live cleaned id grants h.1,
)

-- A grant that has expired is not extended: where every grant of the ID has run out, the call
-- returns nothing and only drops what has expired.
pub extend_expired :
    (cleaned now : ℕ) (id : Text) (store : GrantStore)
    → All (λ grant. grant.id ≡ id → grant.expires_at ≤ cleaned) store.grants
    → extend cleaned now id store ≡ (none, cleanup cleaned store)
unfolding extend cleanup
extend_expired cleaned now id store h =
    let unchanged =
      find-none_of (has_id id) (is_live cleaned) (extend_one now) store.grants
        (expired-not-live cleaned id store.grants h) in
    λ i. (unchanged.0 i, record store { grants = unchanged.1 i })
