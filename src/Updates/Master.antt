-- ===== src/Updates/Master.antt =====
-- What an accepted update of an identity leaves
-- (dpp/src/identity/state_transition/identity_update_transition).
use rs_platform.Common.{
  ℕ, ◌+◌, ◌-◌, ◌%◌, ◌<◌, ◌≡◌, refl, sym, ap, ◌∙◌, Bool, true, false, not, ◌&&◌, Option, none, some,
  List, [], ◌∷◌, ◌++◌, map, Bytes, ◌==◌, ==→eq, if◌then◌else◌, Result, ok, ◌>>=◌, >>=-eq-ok,
  u64_mod, arith, Bool-cases, inl, inr,
}
use rs_platform.Keys.{
  Purpose, authentication, encryption, decryption, withdraw, SecurityLevel, master, critical, high,
  medium, IdentityPublicKey,
}
use rs_platform.Payouts.{Identity}
use rs_platform.Updates.{
  IdentityUpdateTransition, UpdateError, FatalError, is_disabled, disable_keys, disable_errors,
  is_empty, is_same_purpose_key, PurposeKey, or_zero, insert_purpose_count, count_keys,
  missing_error, validate_required_keys, disabled_at_errors, raw_key_errors, validate_stored,
  validate, hashes, apply_found, apply_identity_update_transition,
}

abbrev pub is_master : Purpose → SecurityLevel → Bool
is_master authentication master = true
is_master _ _ = false

-- Whether a key that is not disabled is a master key for authentication.
abbrev pub has_master : List IdentityPublicKey → Bool
has_master [] = false
has_master (key ∷ keys) =
    let rest = has_master keys in
    if is_master key.purpose key.security_level && not (is_disabled key) then true else rest

abbrev master_key : PurposeKey
master_key = (authentication, master)

same_lem : (p : Purpose) (l : SecurityLevel) → is_same_purpose_key master_key (p, l) ≡ is_master p l
same_lem authentication master = refl
same_lem authentication critical = refl
same_lem authentication high = refl
same_lem authentication medium = refl
same_lem encryption l = refl
same_lem decryption l = refl
same_lem withdraw l = refl

counted_lem :
    (disabled is_counted : Bool) (combo : PurposeKey) (count : ℕ) (counts : PurposeKey → Option ℕ)
    → counts master_key ≡ none
    → is_same_purpose_key master_key combo ≡ is_counted
    → (is_counted && not disabled) ≡ false
    → (if disabled then counts else insert_purpose_count combo count counts) master_key ≡ none
counted_lem true is_counted combo count counts h same k = h
counted_lem false true combo count counts h same k = cc
counted_lem false false combo count counts h same k = rw same h

rest_lem : (b rest : Bool) → (if b then true else rest) ≡ false → (b ≡ false) × (rest ≡ false)
rest_lem true rest h = cc
rest_lem false rest h = (refl, h)

count_keys-without_master :
    (keys : List IdentityPublicKey) (counts : PurposeKey → Option ℕ)
    → counts master_key ≡ none
    → has_master keys ≡ false
    → count_keys keys counts master_key ≡ none
unfolding count_keys
count_keys-without_master [] counts h k = h
count_keys-without_master (key ∷ keys) counts h k =
    let combo : PurposeKey = (key.purpose, key.security_level) in
    let (not_first, not_rest) =
      rest_lem (is_master key.purpose key.security_level && not (is_disabled key)) (has_master keys)
        k in
    count_keys-without_master keys
      (if is_disabled key
        then counts
        else insert_purpose_count combo (or_zero (counts combo) + 1) counts)
      (counted_lem (is_disabled key) (is_master key.purpose key.security_level) combo
        (or_zero (counts combo) + 1) counts h (same_lem key.purpose key.security_level) not_first)
      not_rest

has_master-append :
    (xs ys : List IdentityPublicKey) → has_master xs ≡ true → has_master (xs ++ ys) ≡ true
has_master-append [] ys h = cc
has_master-append (x ∷ xs) ys h = ground (arith, has_master-append xs ys)

required_lem :
    (keys : List IdentityPublicKey) → validate_required_keys keys ≡ [] → has_master keys ≡ true
unfolding validate_required_keys
required_lem keys h = elim (Bool-cases (has_master keys)) [
  | inl present ↦ present
  | inr absent ↦
      let uncounted = count_keys-without_master keys (λ combo. none) refl absent in
      let reported : missing_error none ≡ [] = rw uncounted at h in cc
]

abbrev no_errors : Result FatalError (List UpdateError)
no_errors = ok []

accepted_lem :
    (added others : List UpdateError)
    → ok (if is_empty added then others else added) ≡ no_errors
    → others ≡ []
accepted_lem [] others h = cc
accepted_lem (e ∷ added) others h = cc

-- Errors that are returned where there are some.
reported_lem :
    (errors : List UpdateError) (more : Result FatalError (List UpdateError))
    → (if not (is_empty errors) then ok errors else more) ≡ ok []
    → more ≡ ok []
reported_lem [] more h = h
reported_lem (e ∷ errors) more h = cc

late_lem :
    (late : List UpdateError) (more : Result FatalError (List UpdateError))
    → (if is_empty late then more else ok late) ≡ ok []
    → more ≡ ok []
late_lem [] more h = h
late_lem (e ∷ late) more h = cc

module _ (validate_keys : List IdentityPublicKey → Result FatalError (List UpdateError))
    (fetch_identity : Bytes → Result FatalError (Option Identity))
    (fetch_latest_block_time : Result FatalError ℕ) where
  raw_key_errors_lem :
      (transition : IdentityUpdateTransition) (keys : List IdentityPublicKey)
      → raw_key_errors validate_keys fetch_identity fetch_latest_block_time transition keys ≡ ok []
      → has_master keys ≡ true
  unfolding raw_key_errors
  raw_key_errors_lem transition keys h =
      let (added, p, rest) =
        >>=-eq-ok (if is_empty transition.add_public_keys then ok [] else validate_keys keys) _ h in
      required_lem keys (accepted_lem added (validate_required_keys keys) rest)

  validate_stored_lem :
      (transition : IdentityUpdateTransition) (identity : Identity)
      → validate_stored validate_keys fetch_identity fetch_latest_block_time transition identity
        ≡ ok []
      → (identity.revision ≡ (transition.revision + u64_mod - 1) % u64_mod)
        × (has_master (
              disable_keys transition.public_keys_disabled_at transition.disable_public_keys
                identity.public_keys)
            ≡ true)
  unfolding validate_stored
  validate_stored_lem transition identity h =
      let expected = (transition.revision + u64_mod - 1) % u64_mod in
      let keys =
        disable_keys transition.public_keys_disabled_at transition.disable_public_keys
          identity.public_keys in
      let errors = disable_errors transition.disable_public_keys identity.public_keys in
      elim (Bool-cases (identity.revision == expected)) [
        | inr wrong ↦ let reported = rw wrong at h in cc
        | inl right ↦
            let in_window =
              reported_lem errors
                (disabled_at_errors validate_keys fetch_identity fetch_latest_block_time transition
                  >>= λ late.
                      if is_empty late
                      then raw_key_errors validate_keys fetch_identity fetch_latest_block_time
                          transition keys
                      else ok late)
                (rw right at h) in
            let (late, p, rest) =
              >>=-eq-ok
                (disabled_at_errors validate_keys fetch_identity fetch_latest_block_time transition)
                _ in_window in
            (
              ==→eq identity.revision expected right,
              raw_key_errors_lem transition keys (late_lem late _ rest),
            )
      ]

  validate_lem :
      (transition : IdentityUpdateTransition) (identity : Identity)
      → fetch_identity transition.identity_id ≡ ok (some identity)
      → validate validate_keys fetch_identity fetch_latest_block_time transition false ≡ ok []
      → validate_stored validate_keys fetch_identity fetch_latest_block_time transition identity
        ≡ ok []
  unfolding validate
  validate_lem transition identity e h = rw e at h

  -- When the validation of an update reports nothing and the update is applied to the same stored
  -- identity, the identity has a master key for authentication that is not disabled, and its
  -- revision is the next one.
  pub apply_identity_update_transition-has_master :
      (hash_of : Bytes → Bytes) (transition : IdentityUpdateTransition)
      (identity updated : Identity) (stored : List Bytes)
      → transition.revision < u64_mod
      → fetch_identity transition.identity_id ≡ ok (some identity)
      → validate validate_keys fetch_identity fetch_latest_block_time transition false ≡ ok []
      → apply_identity_update_transition hash_of fetch_identity transition ≡ ok (updated, stored)
      → (has_master updated.public_keys ≡ true)
        × (updated.revision ≡ (identity.revision + 1) % u64_mod)
  unfolding apply_identity_update_transition apply_found
  apply_identity_update_transition-has_master hash_of transition identity updated stored small e h
        k =
      let (before, keeps) =
        validate_stored_lem transition identity (validate_lem transition identity e h) in
      let disabled =
        disable_keys transition.public_keys_disabled_at transition.disable_public_keys
          identity.public_keys in
      let unsigned =
        map (λ (key : IdentityPublicKey). record key { signature = [] })
          transition.add_public_keys in
      let (added, p, same) = >>=-eq-ok (hashes hash_of transition.add_public_keys) _ (rw e at k) in
      let one : record identity {
        revision = transition.revision;
        public_keys = disabled ++ unsigned;
      }
          ≡ updated =
        cc in
      (
        ap (λ (v : Identity). has_master v.public_keys) (sym one)
            ∙ has_master-append disabled unsigned keeps,
        ap (λ (v : Identity). v.revision) (sym one) ∙ omega (arith, before),
      )
