-- ===== src/Flags/Merge.antt =====
-- `combine_added_bytes` of drive/src/drive/flags.rs: owners, base epochs and the bytes per epoch.
use rs_platform.Common.{
  ℕ, ◌+◌, ◌%◌, ◌<◌, ◌≡◌, refl, inl, inr, Option, none, some, [], ◌∷◌, Bytes, Option-cases, ok,
  >>=-eq-ok, get_or_else, arith, ◌==◌, if◌then◌else◌, u32_mod, ap, ltb,
}
use rs_platform.Common.SortedMap.{
  get, remove, IsSorted, get-insert, get-remove, insert-IsSorted, remove-IsSorted, get-Above,
}
use rs_platform.Flags.{
  StorageFlags, EpochMap, base_epoch, owner_id, epoch_index_map, combine_owner_id, add_bytes,
  add_all, combine_maps, combine_non_base_epoch_bytes, rebuild, combine_same_base_epoch,
  combine_with_higher_base_epoch, combine_added_bytes,
}

-- The bytes that a map has for an epoch, 0 where it has none.
abbrev pub bytes_at : ℕ → EpochMap → ℕ
bytes_at epoch m = get_or_else (get epoch m) 0

abbrev pub map_of : StorageFlags → EpochMap
map_of flags = get_or_else (epoch_index_map flags) []

pub add_bytes-IsSorted : (e b : ℕ) (m : EpochMap) → IsSorted m → IsSorted (add_bytes e b m)
unfolding add_bytes
add_bytes-IsSorted e b m s = elim (Option-cases (get e m)) [
  | inl p ↦ ground (arith, insert-IsSorted e b (remove e m) (remove-IsSorted e m s))
  | inr (w, p) ↦
      ground (arith, insert-IsSorted e ((w + b) % u32_mod) (remove e m) (remove-IsSorted e m s))
]

-- One more entry, at the level of the bytes per epoch; the sum wraps as the source's does.
pub bytes_at-add_bytes :
    (e b j : ℕ) (m : EpochMap)
    → IsSorted m
    → bytes_at j (add_bytes e b m) % u32_mod ≡ (bytes_at j m + (if j == e then b else 0)) % u32_mod
unfolding add_bytes
bytes_at-add_bytes e b j m s = elim (Option-cases (get e m)) [
  | inl p ↦ ground (arith, get-insert e j b (remove e m), get-remove e j m s)
  | inr (w, p) ↦ ground (arith, get-insert e j ((w + b) % u32_mod) (remove e m), get-remove e j m s)
]

pub add_all-IsSorted : (c m : EpochMap) → IsSorted c → IsSorted (add_all c m)
unfolding add_all
add_all-IsSorted c [] s = s
add_all-IsSorted c ((e, b) ∷ m) s =
    add_all-IsSorted (add_bytes e b c) m (add_bytes-IsSorted e b c s)

pub bytes_at-cons :
    (e b j : ℕ) (m : EpochMap)
    → IsSorted ((e, b) ∷ m)
    → bytes_at j ((e, b) ∷ m) ≡ bytes_at j m + (if j == e then b else 0)
unfolding get
bytes_at-cons e b j m s = ground (arith, get-Above e m s.0)

pub bytes_at-add_all :
    (j : ℕ) (c m : EpochMap)
    → IsSorted c
    → IsSorted m
    → bytes_at j (add_all c m) % u32_mod ≡ (bytes_at j c + bytes_at j m) % u32_mod
unfolding add_all
bytes_at-add_all j c [] s t = unfold get in omega arith
bytes_at-add_all j c ((e, b) ∷ m) s t = omega (
  arith,
  bytes_at-add_all j (add_bytes e b c) m (add_bytes-IsSorted e b c s) t.1,
  bytes_at-add_bytes e b j c s,
  bytes_at-cons e b j m t,
)

-- The two maps together, whichever of the two flags have one.
pub combine_maps-IsSorted :
    (o p : Option EpochMap)
    → IsSorted (get_or_else o [])
    → IsSorted (get_or_else p [])
    → IsSorted (get_or_else (combine_maps o p) [])
unfolding combine_maps
combine_maps-IsSorted (some x) (some y) s t = add_all-IsSorted x y s
combine_maps-IsSorted (some x) none s t = s
combine_maps-IsSorted none p s t = t

pub bytes_at-combine_maps :
    (j : ℕ) (o p : Option EpochMap)
    → IsSorted (get_or_else o [])
    → IsSorted (get_or_else p [])
    → bytes_at j (get_or_else (combine_maps o p) []) % u32_mod
      ≡ (bytes_at j (get_or_else o []) + bytes_at j (get_or_else p [])) % u32_mod
unfolding combine_maps get
bytes_at-combine_maps j (some x) (some y) s t = bytes_at-add_all j x y s t
bytes_at-combine_maps j (some x) none s t = ap (λ (n : ℕ). n % u32_mod) (omega arith)
bytes_at-combine_maps j none p s t = ap (λ (n : ℕ). n % u32_mod) (omega arith)

pub base_epoch-rebuild :
    (base : ℕ) (o : Option Bytes) (m : Option EpochMap) → base_epoch (rebuild base o m) ≡ base
unfolding base_epoch rebuild
base_epoch-rebuild base none none = refl
base_epoch-rebuild base none (some m) = refl
base_epoch-rebuild base (some o) none = refl
base_epoch-rebuild base (some o) (some m) = refl

pub owner_id-rebuild :
    (base : ℕ) (o : Option Bytes) (m : Option EpochMap) → owner_id (rebuild base o m) ≡ o
unfolding owner_id rebuild
owner_id-rebuild base none none = refl
owner_id-rebuild base none (some m) = refl
owner_id-rebuild base (some o) none = refl
owner_id-rebuild base (some o) (some m) = refl

pub map_of-rebuild :
    (base : ℕ) (o : Option Bytes) (m : Option EpochMap) → epoch_index_map (rebuild base o m) ≡ m
unfolding epoch_index_map rebuild
map_of-rebuild base none none = refl
map_of-rebuild base none (some m) = refl
map_of-rebuild base (some o) none = refl
map_of-rebuild base (some o) (some m) = refl

-- The bytes that a merge adds beyond those of the two maps.
abbrev pub extra_at : ℕ → ℕ → ℕ → ℕ → ℕ
extra_at base_ours base_theirs added j =
    if ltb base_ours base_theirs then (if j == base_theirs then added else 0) else 0

-- What a merge has done that succeeds: the owners agree, and the maps have been joined.
combine_same_base_epoch-eq-ok :
    (a b c : StorageFlags)
    → combine_same_base_epoch a b ≡ ok c
    → (o : Option Bytes) × (combine_owner_id a b ≡ ok o)
      × (c ≡ rebuild (base_epoch a) o (combine_maps (epoch_index_map a) (epoch_index_map b)))
unfolding combine_same_base_epoch combine_non_base_epoch_bytes
combine_same_base_epoch-eq-ok a b c e =
    let (o, p, q) = >>=-eq-ok (combine_owner_id a b) _ e in (o, p, cc)

combine_with_higher_base_epoch-eq-ok :
    (a b c : StorageFlags) (added : ℕ)
    → combine_with_higher_base_epoch a b added ≡ ok c
    → (o : Option Bytes) × (combine_owner_id a b ≡ ok o)
      × (c
          ≡ rebuild (base_epoch a) o (
              some (
                add_bytes
                  (base_epoch b)
                  added
                  (get_or_else (combine_maps (epoch_index_map a) (epoch_index_map b)) []))))
unfolding combine_with_higher_base_epoch combine_non_base_epoch_bytes
combine_with_higher_base_epoch-eq-ok a b c added e =
    let (o, p, q) = >>=-eq-ok (combine_owner_id a b) _ e in (o, p, cc)

abbrev Merged : StorageFlags → StorageFlags → ℕ → StorageFlags → Type 0
Merged a b added c =
    (base_epoch c ≡ base_epoch a)
    × IsSorted (map_of c)
    × ((j : ℕ)
        → bytes_at j (map_of c) % u32_mod
          ≡ (bytes_at j (map_of a)
              + bytes_at j (map_of b)
              + extra_at (base_epoch a) (base_epoch b) added j)
            % u32_mod)

module _ (a b c : StorageFlags) (added : ℕ) (s : IsSorted (map_of a))
    (t : IsSorted (map_of b)) where
  same-Merged :
      base_epoch a ≡ base_epoch b → combine_same_base_epoch a b ≡ ok c → Merged a b added c
  same-Merged q e =
      let (o, _, p) = combine_same_base_epoch-eq-ok a b c e in
      let m = combine_maps (epoch_index_map a) (epoch_index_map b) in
      rw p (
        rw (base_epoch-rebuild (base_epoch a) o m, map_of-rebuild (base_epoch a) o m)
          (
            refl,
            combine_maps-IsSorted _ _ s t,
            λ j.
                ground (arith, bytes_at-combine_maps j (epoch_index_map a) (epoch_index_map b) s t),
          ))

  higher-Merged :
      base_epoch a < base_epoch b
      → combine_with_higher_base_epoch a b added ≡ ok c
      → Merged a b added c
  higher-Merged q e =
      let (o, _, p) = combine_with_higher_base_epoch-eq-ok a b c added e in
      let m = get_or_else (combine_maps (epoch_index_map a) (epoch_index_map b)) [] in
      let sorted = combine_maps-IsSorted (epoch_index_map a) (epoch_index_map b) s t in
      let m' = add_bytes (base_epoch b) added m in
      rw p (
        rw
          (base_epoch-rebuild (base_epoch a) o (some m'), map_of-rebuild (base_epoch a) o (some m'))
          (
            refl,
            add_bytes-IsSorted (base_epoch b) added m sorted,
            λ j. ground (
              arith,
              bytes_at-add_bytes (base_epoch b) added j m sorted,
              bytes_at-combine_maps j (epoch_index_map a) (epoch_index_map b) s t,
            ),
          ))

-- A merge that succeeds keeps the first flags' base epoch, leaves the keys ascending, and has for
-- each epoch, modulo 2 ^ 32, the bytes of both maps, and the added bytes besides at the base epoch
-- of the second flags where that is the later one.
pub combine_added_bytes-bytes_at :
    (a b c : StorageFlags) (added : ℕ)
    → IsSorted (map_of a)
    → IsSorted (map_of b)
    → combine_added_bytes a b added ≡ ok c
    → (base_epoch c ≡ base_epoch a)
      × IsSorted (map_of c)
      × ((j : ℕ)
          → bytes_at j (map_of c) % u32_mod
            ≡ (bytes_at j (map_of a)
                + bytes_at j (map_of b)
                + extra_at (base_epoch a) (base_epoch b) added j)
              % u32_mod)
unfolding combine_added_bytes
combine_added_bytes-bytes_at a b c added s t e =
    ground (arith, same-Merged a b c added s t, higher-Merged a b c added s t)
