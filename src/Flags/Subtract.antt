-- ===== src/Flags/Subtract.antt =====
-- `combine_removed_bytes` of drive/src/drive/flags.rs: the bytes that a removal takes off the
-- epochs of the merged map.
use rs_platform.Common.{
  ℕ, suc, ◌+◌, ◌-◌, ◌%◌, ◌≤◌, ◌<◌, ◌≡◌, ◌↔◌, refl, sym, ◌∙◌, inl, inr, Option, some, [], ◌∷◌, Bytes,
  ok, >>=-eq-ok, get_or_else, arith, u16_mod, u32_mod, All, Option-cases,
}
use rs_platform.Common.SortedMap.{SortedMap, get, insert, IsSorted, Above, get-insert, Above-mono}
use rs_platform.Flags.{
  StorageFlags, EpochMap, sectioned_storage_removal, base_epoch, epoch_index_map, combine_owner_id,
  combine_maps, combine_non_base_epoch_bytes, rebuild, remove_sections, subtract_removed,
  lookup_owner, combine_with_higher_base_epoch_remove_bytes, combine_removed_bytes,
}
use rs_platform.Flags.Merge.{
  bytes_at, map_of, bytes_at-cons, bytes_at-combine_maps, base_epoch-rebuild, map_of-rebuild,
}

-- The sections of a removal name epochs, which are 16-bit numbers.
abbrev pub AreEpochs : SortedMap ℕ → Type 0
AreEpochs = All (λ s. s.0 < u16_mod)

-- Every section's epoch has at least the bytes that the section takes.
abbrev pub Covers : EpochMap → SortedMap ℕ → Type 0
Covers m = All (λ s. (w : ℕ) × (get s.0 m ≡ some w) × (s.1 ≤ w))

-- What the first round of the loop did.
remove_sections-cons :
    (m : EpochMap) (e r : ℕ) (sections : SortedMap ℕ) {m' : EpochMap}
    → e < u16_mod
    → remove_sections m ((e, r) ∷ sections) ≡ ok m'
    → (w : ℕ) × (get e m ≡ some w)
      × (r ≤ w)
      × (remove_sections (insert e (w - r) m) sections ≡ ok m')
unfolding remove_sections
remove_sections-cons m e r sections h q = elim (Option-cases (get e m)) [
  | inl p ↦ ground arith
  | inr (w, p) ↦ (w, p, ground arith, ground arith)
]

remove_sections_step :
    (m : EpochMap) (e r : ℕ) (sections : SortedMap ℕ) {w : ℕ} {m' : EpochMap}
    → e < u16_mod
    → get e m ≡ some w
    → r ≤ w
    → remove_sections (insert e (w - r) m) sections ≡ ok m'
    → remove_sections m ((e, r) ∷ sections) ≡ ok m'
unfolding remove_sections
remove_sections_step m e r sections h p le q = ground arith

-- The loop takes from each epoch what the section says, and from no other.
bytes_at-remove_sections :
    (j : ℕ) (m : EpochMap) (sections : SortedMap ℕ) {m' : EpochMap}
    → AreEpochs sections
    → IsSorted sections
    → remove_sections m sections ≡ ok m'
    → bytes_at j m' + bytes_at j sections ≡ bytes_at j m
bytes_at-remove_sections j m [] k s q = unfold remove_sections get in ground arith
bytes_at-remove_sections j m ((e, r) ∷ sections) k s q =
    let (w, p, le, rest) = remove_sections-cons m e r sections k.0 q in
    ground (
      arith,
      bytes_at-remove_sections j (insert e (w - r) m) sections k.1 s.1 rest,
      bytes_at-cons e r j sections s,
      get-insert e j (w - r) m,
    )

-- A key that no later section names keeps its bytes.
Covers-insert :
    (e v : ℕ) (m : EpochMap) (sections : SortedMap ℕ) (lo : ℕ)
    → e < lo
    → Above lo sections
    → Covers m sections ↔ Covers (insert e v m) sections
Covers-insert e v m [] lo h a = (λ _. tt, λ _. tt)
Covers-insert e v m ((k, r) ∷ sections) lo h a =
    let (to, from) = Covers-insert e v m sections lo h a.1 in
    let same : get k (insert e v m) ≡ get k m = ground (arith, get-insert e k v m) in
    (λ c. ((c.0.0, same ∙ c.0.1, c.0.2), to c.1), λ c. ((c.0.0, sym same ∙ c.0.1, c.0.2), from c.1))

-- A removal succeeds exactly when every epoch that it names holds the bytes that it takes.
pub remove_sections_succeeds :
    (m : EpochMap) (sections : SortedMap ℕ)
    → AreEpochs sections
    → IsSorted sections
    → ((m' : EpochMap) × (remove_sections m sections ≡ ok m')) ↔ Covers m sections
remove_sections_succeeds m [] k s = (λ _. tt, λ _. (m, unfold remove_sections in refl))
remove_sections_succeeds m ((e, r) ∷ sections) k s = (
  λ h.
      let (w, p, le, rest) = remove_sections-cons m e r sections k.0 h.1 in
      let ih = remove_sections_succeeds (insert e (w - r) m) sections k.1 s.1 in
      (
        (w, p, le),
        (Covers-insert e (w - r) m sections (e + 1) (omega arith) (above s.0)).1 (ih.0 (h.0, rest)),
      ),
  λ c.
      let w = c.0.0 in
      let ih = remove_sections_succeeds (insert e (w - r) m) sections k.1 s.1 in
      let (m', q) =
        ih.1 ((Covers-insert e (w - r) m sections (e + 1) (omega arith) (above s.0)).0 c.1) in
      (m', remove_sections_step m e r sections k.0 c.0.1 c.0.2 q),
)
  where
    above : Above (suc e) sections → Above (e + 1) sections
    above h = Above-mono sections (e + 1) (suc e) (omega arith) h

-- What a removal at a later base epoch has done that succeeds.
remove_bytes-eq-ok :
    (a b c : StorageFlags) (owner : Bytes) (sections : SortedMap ℕ)
    → combine_with_higher_base_epoch_remove_bytes a b
        (sectioned_storage_removal ((owner, sections) ∷ []))
      ≡ ok c
    → (o : Option Bytes) × (m : EpochMap) × (remove_sections
          (get_or_else (combine_maps (epoch_index_map a) (epoch_index_map b)) [])
          sections
        ≡ ok m)
      × (c ≡ rebuild (base_epoch a) o (some m))
unfolding combine_with_higher_base_epoch_remove_bytes combine_non_base_epoch_bytes subtract_removed
    lookup_owner
remove_bytes-eq-ok a b c owner sections e =
    let m = get_or_else (combine_maps (epoch_index_map a) (epoch_index_map b)) [] in
    let (o, p, q) = >>=-eq-ok (combine_owner_id a b) _ e in
    let (left, r, t) =
      >>=-eq-ok (subtract_removed o m (sectioned_storage_removal ((owner, sections) ∷ []))) _ q in
    (o, left, ground arith, cc)

-- Bytes that are removed at a later base epoch than that of the first flags: where the merge
-- succeeds, the base epoch is the first flags', and each epoch holds the bytes of both maps less
-- those of its section, modulo 2 ^ 32.
pub combine_removed_bytes-bytes_at :
    (a b c : StorageFlags) (owner : Bytes) (sections : SortedMap ℕ)
    → IsSorted (map_of a)
    → IsSorted (map_of b)
    → AreEpochs sections
    → IsSorted sections
    → base_epoch a < base_epoch b
    → combine_removed_bytes a b (sectioned_storage_removal ((owner, sections) ∷ [])) ≡ ok c
    → (base_epoch c ≡ base_epoch a)
      × ((j : ℕ)
          → (bytes_at j (map_of c) + bytes_at j sections) % u32_mod
            ≡ (bytes_at j (map_of a) + bytes_at j (map_of b)) % u32_mod)
unfolding combine_removed_bytes
combine_removed_bytes-bytes_at a b c owner sections s t k u h e =
    let (o, m, q, p) = remove_bytes-eq-ok a b c owner sections (ground arith) in
    rw p (
      rw (base_epoch-rebuild (base_epoch a) o (some m), map_of-rebuild (base_epoch a) o (some m))
        (
          refl,
          λ j. ground (
            arith,
            bytes_at-remove_sections j
                (get_or_else (combine_maps (epoch_index_map a) (epoch_index_map b)) []) sections k u
                q,
            bytes_at-combine_maps j (epoch_index_map a) (epoch_index_map b) s t,
          ),
        ))
