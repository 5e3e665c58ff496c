-- ===== src/Documents/Allowed.antt =====
-- Which document transitions the validation of
-- dpp/src/document/state_transition/documents_batch_transition/validation/state lets pass.
use rs_platform.Common.{
  ℕ, ◌+◌, ◌-◌, ◌%◌, ◌≤◌, ◌<◌, ◌≡◌, ◌↔◌, refl, sym, ap, subst, ◌∙◌, Bool, true, false, Option, none,
  some, List, [], ◌∷◌, ◌++◌, Bytes, bytes_eq, bytes_eq_iff, if◌then◌else◌, u32_mod, u64_mod, arith,
}
use rs_platform.Common.Int.{ℤ, pos, negsuc, codes}
use rs_platform.Documents.{
  block_time_window_millis, validate_time_in_block_time_window, create, replace, delete, Action,
  DocumentTransition, Document, StateError, is_valid, base, get_created_at, get_updated_at,
  replace_revision, find_document, as_u64, int_eq, ownership_errors, check_ownership,
  revision_errors, check_revision, present_errors, check_if_document_is_already_present,
  missing_errors, check_if_document_can_be_found, document_timestamp_mismatch,
  document_owner_mismatch, document_timestamp_window_violation, timestamp_errors,
  check_if_timestamps_are_equal, window_errors, check_created_inside_time_window,
  check_updated_inside_time_window, validate_action, validate_transition,
}

-- A time, if there is one, no more than five minutes from the block's.
abbrev pub IsNear : ℕ → Option ℤ → Type 0
IsNear last none = Unit
IsNear last (some time) =
    (last ≤ as_u64 time + block_time_window_millis)
    × (as_u64 time ≤ last + block_time_window_millis)

abbrev pub AreEqualTimes : Option ℤ → Option ℤ → Type 0
AreEqualTimes none updated_at = Unit
AreEqualTimes (some created_at) none = Unit
AreEqualTimes (some created_at) (some updated_at) = updated_at ≡ created_at

abbrev pub IsNextRevision : ℕ → Option ℕ → Type 0
IsNextRevision current none = Unit
IsNextRevision current (some revision) = revision ≡ (current + 1) % u32_mod

abbrev pub IsAllowed : Action → DocumentTransition → List Document → ℕ → Bytes → Type 0
IsAllowed create transition documents last owner_id =
    AreEqualTimes (get_created_at transition) (get_updated_at transition)
    × (IsNear last (get_created_at transition)
        × (IsNear last (get_updated_at transition)
            × (find_document (base transition).id documents ≡ none)))
IsAllowed replace transition documents last owner_id =
    IsNear last (get_updated_at transition)
    × ((document : Document) × (find_document (base transition).id documents ≡ some document)
        × (document.owner_id ≡ owner_id)
        × IsNextRevision document.revision (replace_revision transition))
IsAllowed delete transition documents last owner_id =
    (document : Document) × (find_document (base transition).id documents ≡ some document)
    × (document.owner_id ≡ owner_id)

append-eq-nil : (xs ys : List StateError) → (xs ++ ys ≡ []) ↔ ((xs ≡ []) × (ys ≡ []))
append-eq-nil [] ys = (λ h. (refl, h), λ h. h.1)
append-eq-nil (x ∷ xs) ys = (λ h. cc, λ h. cc)

int_eq→eq : (i j : ℤ) → int_eq i j ≡ true → i ≡ j
int_eq→eq (pos m) (pos n) h = ground arith
int_eq→eq (pos m) (negsuc n) h = cc
int_eq→eq (negsuc m) (pos n) h = cc
int_eq→eq (negsuc m) (negsuc n) h = ground arith

int_eq_refl : (i : ℤ) → int_eq i i ≡ true
int_eq_refl (pos m) = ground arith
int_eq_refl (negsuc m) = ground arith

if-eq-nil : (b : Bool) (e : StateError) → ((if b then [] else e ∷ []) ≡ []) ↔ (b ≡ true)
if-eq-nil true e = (λ h. refl, λ h. refl)
if-eq-nil false e = (λ h. cc, λ h. cc)

-- A check whose test decides a property reports nothing when it holds.
test-eq-nil :
    {P : Type 0} (b : Bool) (e : StateError)
    → (b ≡ true) ↔ P
    → ((if b then [] else e ∷ []) ≡ []) ↔ P
test-eq-nil b e h = (λ x. h.0 ((if-eq-nil b e).0 x), λ p. (if-eq-nil b e).1 (h.1 p))

timestamps_lem :
    (id : Bytes) (created_at updated_at : Option ℤ)
    → (timestamp_errors id created_at updated_at ≡ []) ↔ AreEqualTimes created_at updated_at
timestamps_lem id none updated_at = (λ h. tt, λ h. refl)
timestamps_lem id (some c) none = (λ h. tt, λ h. refl)
timestamps_lem id (some c) (some u) =
    test-eq-nil (int_eq u c) (document_timestamp_mismatch id)
      (int_eq→eq u c, λ e. rw e (int_eq_refl c))

revision_lem :
    (id : Bytes) (document : Document) (revision : Option ℕ)
    → (revision_errors id (some document) revision ≡ []) ↔ IsNextRevision document.revision revision
revision_lem id document none = (λ h. tt, λ h. refl)
revision_lem id document (some r) = (λ h. ground arith, λ h. ground arith)

window_lem :
    (name id : Bytes) (last : ℕ) (time : Option ℤ)
    → block_time_window_millis ≤ last
    → last + block_time_window_millis < u64_mod
    → (window_errors name id last time ≡ []) ↔ IsNear last time
unfolding validate_time_in_block_time_window
window_lem name id last none h k = (λ e. tt, λ e. refl)
window_lem name id last (some t) h k =
    let start : (last + u64_mod - block_time_window_millis) % u64_mod
        ≡ last - block_time_window_millis =
      omega arith in
    let end : (last + block_time_window_millis) % u64_mod ≡ last + block_time_window_millis =
      omega arith in
    let window = validate_time_in_block_time_window last (as_u64 t) in
    test-eq-nil window.valid
      (document_timestamp_window_violation name id (as_u64 t) window.time_window_start
        window.time_window_end)
      (λ e. ground arith, λ e. ground arith)

owner_lem :
    (id owner_id : Bytes) (document : Document)
    → (ownership_errors id owner_id (some document) ≡ []) ↔ (document.owner_id ≡ owner_id)
owner_lem id owner_id document =
    test-eq-nil (bytes_eq document.owner_id owner_id)
      (document_owner_mismatch id owner_id document.owner_id)
      (bytes_eq_iff document.owner_id owner_id)

present_lem :
    (id : Bytes) (found : Option Document) → (present_errors id found ≡ []) ↔ (found ≡ none)
present_lem id none = (λ h. refl, λ h. refl)
present_lem id (some document) = (λ h. cc, λ h. cc)

both-eq-nil :
    {P Q : Type 0} (xs ys : List StateError)
    → (xs ≡ []) ↔ P
    → (ys ≡ []) ↔ Q
    → (xs ++ ys ≡ []) ↔ (P × Q)
both-eq-nil xs ys h k = (
  λ e. let (first, second) = (append-eq-nil xs ys).0 e in (h.0 first, k.0 second),
  λ e. (append-eq-nil xs ys).1 (h.1 e.0, k.1 e.1),
)

owned_lem :
    (id owner_id : Bytes) (found : Option Document)
    → ((if is_valid (missing_errors id found)
          then ownership_errors id owner_id found
          else missing_errors id found)
        ≡ [])
      ↔ ((document : Document) × (found ≡ some document) × (document.owner_id ≡ owner_id))
owned_lem id owner_id none = (λ h. cc, λ h. cc)
owned_lem id owner_id (some d) =
    let owner = owner_lem id owner_id d in
    (
      λ h. (d, refl, owner.0 h),
      λ (x, same, o). let one : d ≡ x = cc in owner.1 (ap (λ (v : Document). v.owner_id) one ∙ o),
    )

replaceable_lem :
    (id owner_id : Bytes) (found : Option Document) (revision : Option ℕ)
    → (revision_errors id found revision
          ++ (if is_valid (missing_errors id found)
              then ownership_errors id owner_id found
              else missing_errors id found)
        ≡ [])
      ↔ ((document : Document) × (found ≡ some document)
          × (document.owner_id ≡ owner_id)
          × IsNextRevision document.revision revision)
replaceable_lem id owner_id none revision = (λ h. cc, λ h. cc)
replaceable_lem id owner_id (some d) revision =
    let both =
      both-eq-nil (revision_errors id (some d) revision) (ownership_errors id owner_id (some d))
        (revision_lem id d revision) (owner_lem id owner_id d) in
    (
      λ h. let (next, owner) = both.0 h in (d, refl, owner, next),
      λ (x, same, o, next).
          let one : x ≡ d = cc in
          both.1 (
            subst (λ (v : Document). IsNextRevision v.revision revision) one next,
            ap (λ (v : Document). v.owner_id) (sym one) ∙ o,
          ),
    )

action_lem :
    (action : Action) (t : DocumentTransition) (documents : List Document) (last : ℕ)
    (owner_id : Bytes)
    → block_time_window_millis ≤ last
    → last + block_time_window_millis < u64_mod
    → (validate_action action t documents last owner_id ≡ [])
      ↔ IsAllowed action t documents last owner_id
unfolding check_if_timestamps_are_equal check_created_inside_time_window
    check_updated_inside_time_window check_if_document_is_already_present check_revision
    check_if_document_can_be_found check_ownership
action_lem create t documents last owner_id h k =
    let id = (base t).id in
    both-eq-nil _ _ (timestamps_lem id (get_created_at t) (get_updated_at t)) (
      both-eq-nil _ _ (window_lem (codes "createdAt") id last (get_created_at t) h k) (
        both-eq-nil _ _ (window_lem (codes "updatedAt") id last (get_updated_at t) h k)
          (present_lem id (find_document id documents))))
action_lem replace t documents last owner_id h k =
    let id = (base t).id in
    both-eq-nil _ _ (window_lem (codes "updatedAt") id last (get_updated_at t) h k)
      (replaceable_lem id owner_id (find_document id documents) (replace_revision t))
action_lem delete t documents last owner_id h k =
    owned_lem (base t).id owner_id (find_document (base t).id documents)

-- A transition is reported for nothing exactly when it is allowed: a new document when none with its
-- id is stored and its times are equal and near the block's; a replacement when the stored document
-- is its owner's, with the revision before, and its time is near the block's; a deletion when the
-- stored document is its owner's. The block's time is such that its window does not wrap around.
pub validate_transition-IsAllowed :
    (transition : DocumentTransition) (documents : List Document) (last : ℕ) (owner_id : Bytes)
    → block_time_window_millis ≤ last
    → last + block_time_window_millis < u64_mod
    → (validate_transition transition documents last owner_id ≡ [])
      ↔ IsAllowed (base transition).action transition documents last owner_id
unfolding validate_transition
validate_transition-IsAllowed t documents last owner_id h k =
    action_lem (base t).action t documents last owner_id h k
