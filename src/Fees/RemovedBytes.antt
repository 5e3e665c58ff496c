-- ===== src/Fees/RemovedBytes.antt =====
-- drive/src/fee/removed_bytes_from_epochs_by_identities.rs: the sum of two tables of removed
-- bytes, per identity and epoch.
use rs_platform.Common.{
  ℕ, ◌+◌, ◌≡◌, refl, true, false, Option, none, some, [], ◌∷◌, Bytes, bytes_eq, bytes_eq_refl,
  bytes_eq_iff, ok, ◌>>=◌, >>=-eq-ok, ok_or, checked_add, get_or_else, if◌then◌else◌, u32_mod,
  arith, subst, ◌∙◌, ap, Bool-cases, inl, inr,
}
use rs_platform.Common.SortedMap.{
  SortedMap, get, insert, remove, IsSorted, get-insert, get-remove, get-Above, remove-IsSorted,
  insert-IsSorted,
}
use rs_platform.Flags.{lookup_owner}
use rs_platform.Flags.Merge.{bytes_at, bytes_at-cons}
use rs_platform.Fees.{overflow, FeeOutcome, RemovedByIdentity, remove_owner}

-- `v.checked_add(value_b)` where the other map has the epoch, `v` where it has not.
unfoldable pub combined_value : ℕ → Option ℕ → FeeOutcome ℕ
combined_value v none = ok v
combined_value v (some w) = ok_or (checked_add u32_mod v w) overflow

-- The first map's entries, each with what the second has for its epoch, and then what is left of
-- the second.
unfoldable pub merge_epochs : SortedMap ℕ → SortedMap ℕ → FeeOutcome (SortedMap ℕ)
unfolding combined_value
merge_epochs [] b = ok b
merge_epochs ((k, v) ∷ a) b = do
  combined ← combined_value v (get k b)
  rest ← merge_epochs a (remove k b)
  ok (insert k combined rest)

merge_with : Option (SortedMap ℕ) → SortedMap ℕ → FeeOutcome (SortedMap ℕ)
merge_with none b = ok b
merge_with (some a) b = merge_epochs a b

-- `RemovedBytesFromEpochsByIdentities::checked_add_assign`
unfoldable pub add_removed : RemovedByIdentity → RemovedByIdentity → FeeOutcome RemovedByIdentity
unfolding merge_with
add_removed ours [] = ok ours
add_removed ours ((identity, b) ∷ theirs) = do
  merged ← merge_with (lookup_owner identity ours) b
  add_removed ((identity, merged) ∷ remove_owner identity ours) theirs

combined_value-eq-add :
    (v : ℕ) (o : Option ℕ) (w : ℕ) → combined_value v o ≡ ok w → w ≡ v + get_or_else o 0
unfolding combined_value
combined_value-eq-add v none w e = ground arith
combined_value-eq-add v (some u) w e = ground arith

-- A merge of two maps that succeeds adds them epoch by epoch.
pub bytes_at-merge_epochs :
    (j : ℕ) (a b : SortedMap ℕ) {c : SortedMap ℕ}
    → IsSorted a
    → IsSorted b
    → merge_epochs a b ≡ ok c
    → bytes_at j c ≡ bytes_at j a + bytes_at j b
unfolding merge_epochs
bytes_at-merge_epochs j [] b s t e = unfold get in ground arith
bytes_at-merge_epochs j ((k, v) ∷ a) b {c} s t e =
    let (w, p, q) = >>=-eq-ok (combined_value v (get k b)) _ e in
    let (r, p', q') = >>=-eq-ok (merge_epochs a (remove k b)) _ q in
    let ih = bytes_at-merge_epochs j a (remove k b) s.1 (remove-IsSorted k b t) p' in
    ground (
      arith,
      combined_value-eq-add v (get k b) w p,
      bytes_at-cons k v j a s,
      get-insert k j w r,
      get-remove k j b t,
      get-Above k a s.0,
    )

merge_epochs-IsSorted :
    (a b : SortedMap ℕ) {c : SortedMap ℕ} → IsSorted b → merge_epochs a b ≡ ok c → IsSorted c
unfolding merge_epochs
merge_epochs-IsSorted [] b t e = ground arith
merge_epochs-IsSorted ((k, v) ∷ a) b {c} t e =
    let (w, p, q) = >>=-eq-ok (combined_value v (get k b)) _ e in
    let (r, p', q') = >>=-eq-ok (merge_epochs a (remove k b)) _ q in
    let sorted = merge_epochs-IsSorted a (remove k b) (remove-IsSorted k b t) p' in
    subst IsSorted (cc) (insert-IsSorted k w r sorted)

-- Every identity stands once, with ascending epochs.
abbrev pub IsTable : RemovedByIdentity → Type 0
IsTable [] = Unit
IsTable ((identity, s) ∷ m) = IsSorted s × (lookup_owner identity m ≡ none) × IsTable m

-- The bytes of an identity at an epoch.
abbrev pub amount : Bytes → ℕ → RemovedByIdentity → ℕ
amount identity j m = bytes_at j (get_or_else (lookup_owner identity m) [])

lookup-remove :
    (i k : Bytes) (m : RemovedByIdentity)
    → IsTable m
    → lookup_owner i (remove_owner k m) ≡ (if bytes_eq i k then none else lookup_owner i m)
unfolding lookup_owner remove_owner
lookup-remove i k [] h = ground arith
lookup-remove i k ((j, s) ∷ m) h =
    ground (arith, lookup-remove i k m h.2, bytes_eq_iff i k, bytes_eq_iff i j, bytes_eq_iff k j)

remove-IsTable : (k : Bytes) (m : RemovedByIdentity) → IsTable m → IsTable (remove_owner k m)
unfolding remove_owner
remove-IsTable k [] h = tt
remove-IsTable k ((j, s) ∷ m) h = ground (arith, remove-IsTable k m h.2, lookup-remove j k m h.2)

lookup-IsSorted :
    (i : Bytes) (m : RemovedByIdentity) → IsTable m → IsSorted (get_or_else (lookup_owner i m) [])
unfolding lookup_owner
lookup-IsSorted i [] h = tt
lookup-IsSorted i ((j, s) ∷ m) h = ground (arith, lookup-IsSorted i m h.2)

-- One identity of the second table, merged into the first.
merge_with_lem :
    (j : ℕ) (o : Option (SortedMap ℕ)) (b : SortedMap ℕ) {c : SortedMap ℕ}
    → IsSorted (get_or_else o [])
    → IsSorted b
    → merge_with o b ≡ ok c
    → IsSorted c × (bytes_at j c ≡ bytes_at j (get_or_else o []) + bytes_at j b)
unfolding merge_with
merge_with_lem j none b s t e = unfold get in ground arith
merge_with_lem j (some a) b s t e =
    (merge_epochs-IsSorted a b t e, bytes_at-merge_epochs j a b s t e)

bytes_at_nil : (j : ℕ) → bytes_at j [] ≡ 0
unfolding get
bytes_at_nil j = refl

module _ (i identity : Bytes) (j : ℕ) (s : SortedMap ℕ) (m : RemovedByIdentity) where
  amount-cons_self : bytes_eq i identity ≡ true → amount i j ((identity, s) ∷ m) ≡ bytes_at j s
  unfolding lookup_owner
  amount-cons_self h = rw h

  amount-cons_ne : bytes_eq i identity ≡ false → amount i j ((identity, s) ∷ m) ≡ amount i j m
  unfolding lookup_owner
  amount-cons_ne h = rw h

-- A sum that does not overflow has, for every identity and epoch, the bytes of both tables.
amount-add_removed :
    (i : Bytes) (j : ℕ) (ours theirs : RemovedByIdentity) {r : RemovedByIdentity}
    → IsTable ours
    → IsTable theirs
    → add_removed ours theirs ≡ ok r
    → IsTable r × (amount i j r ≡ amount i j ours + amount i j theirs)
unfolding add_removed
amount-add_removed i j ours [] h k e = unfold lookup_owner get in ground arith
amount-add_removed i j ours ((identity, b) ∷ theirs) {r} h k e =
    let (merged, p, q) = >>=-eq-ok (merge_with (lookup_owner identity ours) b) _ e in
    let (sorted, sum) =
      merge_with_lem j (lookup_owner identity ours) b (lookup-IsSorted identity ours h) k.0 p in
    let gone = lookup-remove identity identity ours h in
    let table : IsTable ((identity, merged) ∷ remove_owner identity ours) =
      (sorted, gone ∙ rw (bytes_eq_refl identity), remove-IsTable identity ours h) in
    let (done, ih) =
      amount-add_removed i j ((identity, merged) ∷ remove_owner identity ours) theirs table k.2 q in
    let rest = remove_owner identity ours in
    (
      done,
      elim (Bool-cases (bytes_eq i identity)) [
        | inl same ↦
            let eq = (bytes_eq_iff i identity).0 same in
            let none_later =
              ap (λ n. bytes_at j (get_or_else (lookup_owner n theirs) [])) eq
              ∙ ap (λ o. bytes_at j (get_or_else o [])) k.1
              ∙ bytes_at_nil j in
            let own = ap (λ n. bytes_at j (get_or_else (lookup_owner n ours) [])) eq in
            omega (
              arith,
              ih,
              sum,
              own,
              none_later,
              amount-cons_self i identity j merged rest same,
              amount-cons_self i identity j b theirs same,
            )
        | inr other ↦
            let kept : lookup_owner i rest ≡ lookup_owner i ours =
              rw (lookup-remove i identity ours h, other) refl in
            omega (
              arith,
              ih,
              amount-cons_ne i identity j merged rest other,
              amount-cons_ne i identity j b theirs other,
              ap (λ o. bytes_at j (get_or_else o [])) kept,
            )
      ],
    )
