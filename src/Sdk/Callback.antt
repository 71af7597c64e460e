-- ===== src/Sdk/Callback.antt =====
-- What becomes of the promise of a call that was sent: `callback` of frontend-sdk/src/index.ts.
use substrate_evm_account_ma.Prelude.{
  Bool, true, false, ◌&&◌, Bytes, List, [], ◌∷◌, Option, none, some, bytes_eq, as_bytes,
  if◌then◌else◌, ◌≡◌, refl, Bool-cases, inl, inr,
}

-- The states of a result that the code asks for; both flags are unset in the other states.
pub data Status : Type 0 where
  in_block : Status
  invalid : Status
  other : Status

-- An event, with the data of the error type that it may carry first.
pub record EventRecord (E : Type 0) : Type 0 where
  pub section : Bytes
  pub method : Bytes
  pub data0 : Option E

pub record SubmittableResult (E : Type 0) : Type 0 where
  pub status : Status
  pub events : List (EventRecord E)

-- What a call of `callback` does: it resolves or rejects the promise, throws, or returns.
pub data Reply (E : Type 0) : Type 0 where
  resolved : SubmittableResult E → Reply E
  rejected : E → Reply E
  rejected_as_invalid : Reply E
  thrown : Reply E
  returned : Reply E

-- `(unsub as any)()`, which throws where there is no `unsub`
abbrev call_unsub : {E : Type 0} → (has_unsub : Bool) → Reply E → Reply E
call_unsub has_unsub rest = if has_unsub then rest else thrown

abbrev is_extrinsic_failed : {E : Type 0} → EventRecord E → Bool
is_extrinsic_failed e =
    bytes_eq e.section (as_bytes "system") && bytes_eq e.method (as_bytes "ExtrinsicFailed")

-- The loop over the events, with the error so far.
unfoldable pub failed_error : {E : Type 0} → Option E → List (EventRecord E) → Option E
failed_error error [] = error
failed_error error (e ∷ es) = failed_error (if is_extrinsic_failed e then e.data0 else error) es

abbrev settled_by : {E : Type 0} → SubmittableResult E → Option E → Reply E
settled_by result none = resolved result
settled_by result (some error) = rejected error

abbrev by_status : {E : Type 0} → (has_unsub : Bool) → SubmittableResult E → Status → Reply E
by_status has_unsub result in_block = settled_by result (failed_error none result.events)
by_status has_unsub result invalid = call_unsub has_unsub rejected_as_invalid
by_status has_unsub result other = returned

unfoldable pub callback : {E : Type 0} → (has_unsub : Bool) → SubmittableResult E → Reply E
callback has_unsub result = by_status has_unsub result result.status

-- The promise: the first call that resolves or rejects it settles it. One that throws leaves it as it
-- is, since the API that makes the call catches what it throws.
abbrev pub go_on : {E : Type 0} → Reply E → Option (Reply E) → Option (Reply E)
go_on thrown rest = rest
go_on returned rest = rest
go_on (resolved r) rest = some (resolved r)
go_on (rejected e) rest = some (rejected e)
go_on rejected_as_invalid rest = some rejected_as_invalid

unfoldable pub settles :
    {E : Type 0} → (has_unsub : Bool) → List (SubmittableResult E) → Option (Reply E)
settles has_unsub [] = none
settles has_unsub (r ∷ rs) = go_on (callback has_unsub r) (settles has_unsub rs)

abbrev pub is_in_block : Status → Bool
is_in_block in_block = true
is_in_block invalid = false
is_in_block other = false

-- The first result that is in a block.
unfoldable pub first_in_block :
    {E : Type 0} → List (SubmittableResult E) → Option (SubmittableResult E)
first_in_block [] = none
first_in_block (r ∷ rs) = if is_in_block r.status then some r else first_in_block rs

-- The errors of the failures among events, and the last one.
abbrev pub failures : {E : Type 0} → List (EventRecord E) → List (Option E)
failures [] = []
failures (e ∷ es) = let rest = failures es in if is_extrinsic_failed e then e.data0 ∷ rest else rest

abbrev pub last_or : {A : Type 0} → A → List A → A
last_or a [] = a
last_or a (x ∷ xs) = last_or x xs

failed_error_lem :
    {E : Type 0} (error : Option E) (es : List (EventRecord E))
    → failed_error error es ≡ last_or error (failures es)
unfolding failed_error
failed_error_lem error [] = refl
failed_error_lem error (e ∷ es) = elim (Bool-cases (is_extrinsic_failed e)) [
  | inl failed ↦ rw failed (failed_error_lem e.data0 es)
  | inr passed ↦ rw passed (failed_error_lem error es)
]

-- How a promise ends that a result in a block settles: with its last error, or with the result.
abbrev pub outcome : {E : Type 0} → Option (SubmittableResult E) → Option (Reply E)
outcome none = none
outcome (some r) =
    some
      (elim (last_or none (failures r.events)) [ none ↦ resolved r | some error ↦ rejected error ])

settled_at_once :
    {E : Type 0} (r : SubmittableResult E) (error : Option E) (rest : Option (Reply E))
    → go_on (settled_by r error) rest
      ≡ some (elim error [ none ↦ resolved r | some x ↦ rejected x ])
settled_at_once r none rest = refl
settled_at_once r (some error) rest = refl

settles_step :
    {E : Type 0} (r : SubmittableResult E) (rs : List (SubmittableResult E)) (s : Status)
    → settles false rs ≡ outcome (first_in_block rs)
    → go_on (by_status false r s) (settles false rs)
      ≡ outcome (if is_in_block s then some r else first_in_block rs)
settles_step r rs in_block e =
    rw (failed_error_lem none r.events)
      (settled_at_once r (last_or none (failures r.events)) (settles false rs))
settles_step r rs invalid e = e
settles_step r rs other e = e

-- The promise of `signAndSendEvm`, which calls `callback` without `unsub`, is settled by the first
-- result in a block alone: it is rejected with the error of the last failure among that result's
-- events, or resolved with the result if there is none. With no such result it is never settled,
-- also where results say that the call is invalid.
pub settles-first_in_block :
    {E : Type 0} (rs : List (SubmittableResult E)) → settles false rs ≡ outcome (first_in_block rs)
unfolding settles callback first_in_block
settles-first_in_block [] = refl
settles-first_in_block (r ∷ rs) = settles_step r rs r.status (settles-first_in_block rs)
