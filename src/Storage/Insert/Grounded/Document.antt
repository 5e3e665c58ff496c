-- ===== src/Storage/Insert/Grounded/Document.antt =====
-- The batch that adds a document is grounded (drive/src/drive/document/insert.rs).
use rs_platform.Common.{
  ℕ, ◌≡◌, inl, inr, refl, sym, ◌∙◌, ap, subst, Bool, true, false, Option, List, [], ◌∷◌, ◌++◌,
  append-nil, All, Bytes, bytes_eq, bytes_eq→eq, ok, ◌>>=◌, >>=-eq-ok, ok_inj, if◌then◌else◌,
  Bool-cases,
}
use rs_platform.Flags.{StorageFlags}
use rs_platform.Flags.Codec.{VarInt}
use rs_platform.Storage.{
  KeyPath, Operation, Drive, StoredIndex, DocumentReader, DocumentInfo, batch_insert,
  batch_insert_if_not_exists, batch_insert_empty_tree_if_not_exists,
}
use rs_platform.Encoding.{encode_unsigned_integer}
use rs_platform.Storage.Paths.{
  contract_document_type_path, contract_documents_primary_key_path,
  contract_documents_keeping_history_primary_key_path_for_document_id, is_empty,
}
use rs_platform.Storage.Insert.{
  Cache, path_eq, contains, is_contained_in_cache, add_to_cache, Progress, note_inserted,
  insert_tree_once, document_id, raw_field, document_item, document_reference, primary_key_path,
  history_path, add_version_with_history, unless_stored, add_document_to_primary_storage,
  insert_property_trees, insert_shared_reference, insert_unique_reference, insert_reference,
  add_to_index, add_to_indices, add_new_document,
}
use rs_platform.Storage.Locations.{field_or_empty}
use rs_platform.Storage.Insert.Writes.{field_of, unless_taken-inserted, unless_stored-stored}
use rs_platform.Storage.Delete.Present.{Extends, Extends-trans}
use rs_platform.Storage.Insert.Grounded.{
  TreeAt, IsFreeOrTree, HasTree, Grounded, empty, HasTree-Extends, batch_insert-Goes, Goes-trans,
  batch_insert_if_not_exists-Goes, insert_empty_tree-Goes,
}

path_eq→eq : (p q : KeyPath) → path_eq p q ≡ true → p ≡ q
path_eq→eq [] [] h = refl
path_eq→eq [] (y ∷ q) h = cc
path_eq→eq (x ∷ p) [] h = cc
path_eq→eq (x ∷ p) (y ∷ q) h = elim (Bool-cases (bytes_eq x y)) [
  | inl same ↦
      let rest = rw (same) at h in
      let tail = path_eq→eq p q rest in
      ap (λ (b : Bytes). b ∷ p) (bytes_eq→eq x y same) ∙ ap (λ (t : KeyPath). y ∷ t) tail
  | inr other ↦ let never = rw (other) at h in cc
]

module _ (drive : Drive) where
  module _ (v : VarInt) where
    -- The batch and the cache: every path of the cache is that of a tree.
    abbrev pub IsSound : Progress → Type 0
    IsSound progress = Grounded drive progress.0 × All (HasTree drive progress.0) progress.1

    abbrev pub Advances : Progress → Progress → Type 0
    Advances progress next = Extends progress.0 next.0 × IsSound next

    cache-Extends :
        (os ps : List Operation) (cache : Cache)
        → Extends os ps
        → All (HasTree drive os) cache
        → All (HasTree drive ps) cache
    cache-Extends os ps [] more all = tt
    cache-Extends os ps (path ∷ cache) more all =
        (HasTree-Extends drive os ps path more all.0, cache-Extends os ps cache more all.1)

    contains-HasTree :
        (os : List Operation) (path : KeyPath) (cache : Cache)
        → contains path cache ≡ true
        → All (HasTree drive os) cache
        → HasTree drive os path
    contains-HasTree os path [] h all = cc
    contains-HasTree os path (p ∷ cache) h all = elim (Bool-cases (path_eq path p)) [
      | inl same ↦ subst (λ q. HasTree drive os q) (sym (path_eq→eq path p same)) all.0
      | inr other ↦ let rest = rw (other) at h in contains-HasTree os path cache rest all.1
    ]

    insert_tree_once-Advances :
        (path : KeyPath) (key : Bytes) (flags : Option StorageFlags) (progress : Progress)
        {next : Progress}
        → IsFreeOrTree drive path key
        → HasTree drive progress.0 path
        → IsSound progress
        → insert_tree_once v drive path key flags progress ≡ ok next
        → Advances progress next × HasTree drive next.0 (path ++ (key ∷ []))
    unfolding insert_tree_once is_contained_in_cache add_to_cache
    insert_tree_once-Advances path key flags progress {next} free there sound h =
        elim (Bool-cases (is_contained_in_cache path key progress.1)) [
          | inl cached ↦
              let settled = rw (insert_tree_once, cached) at h in
              let same : progress ≡ next = ok_inj settled in
              subst (λ (q : Progress). Advances progress q × HasTree drive q.0 (path ++ (key ∷ [])))
                same
                (
                  (([], sym (append-nil progress.0)), sound),
                  contains-HasTree progress.0 (path ++ (key ∷ [])) progress.1 cached sound.1,
                )
          | inr fresh ↦
              let inserting = rw (insert_tree_once, fresh) at h in
              let step =
                >>=-eq-ok (batch_insert_empty_tree_if_not_exists v drive path key flags progress.0)
                  _ inserting in
              let goes =
                insert_empty_tree-Goes drive v path key flags progress.0 free there sound.0
                  step.1 in
              let same = ok_inj step.2 in
              subst (λ (q : Progress). Advances progress q × HasTree drive q.0 (path ++ (key ∷ [])))
                same
                (
                  (
                    goes.0.0,
                    (
                      goes.0.1,
                      noted path key progress.1 step.0 goes.1
                          (cache-Extends progress.0 step.0.1 progress.1 goes.0.0 sound.1),
                    ),
                  ),
                  goes.1,
                )
        ]
      where
        noted :
            (path : KeyPath) (key : Bytes) (cache : Cache) (step : Bool × List Operation)
            → HasTree drive step.1 (path ++ (key ∷ []))
            → All (HasTree drive step.1) cache
            → All (HasTree drive step.1) (note_inserted v drive path key cache step).1
        noted path key cache (true, os) tree_there all = (tree_there, all)
        noted path key cache (false, os) tree_there all = all

    Advances-trans : (p q r : Progress) → Advances p q → Advances q r → Advances p r
    Advances-trans p q r first then_more =
        (Extends-trans p.0 q.0 r.0 first.0 then_more.0, then_more.1)

    module _ {D : Type 0} (reader : DocumentReader D) (info : DocumentInfo D) where
      -- Along the properties and the document's fields, and under key 0 at the end, the storage has
      -- nothing or trees.
      abbrev pub HasTreesAlong : List Bytes → KeyPath → Type 0
      HasTreesAlong [] path = IsFreeOrTree drive path (0 ∷ [])
      HasTreesAlong (name ∷ names) path =
          IsFreeOrTree drive path name
          × IsFreeOrTree drive (path ++ (name ∷ [])) (field_of v drive reader info name)
          × HasTreesAlong names ((path ++ (name ∷ [])) ++ (field_of v drive reader info name ∷ []))

      insert_property_trees-Advances :
          (names : List Bytes) (path : KeyPath) (any : Bool) (progress : Progress)
          {r : KeyPath × Bool × Progress}
          → HasTreesAlong names path
          → HasTree drive progress.0 path
          → IsSound progress
          → insert_property_trees v drive reader info names path any progress ≡ ok r
          → Advances progress r.2 × HasTree drive r.2.0 r.0 × IsFreeOrTree drive r.0 (0 ∷ [])
      unfolding insert_property_trees
      insert_property_trees-Advances [] path any progress {r} along there sound h =
          subst
            (λ (q : KeyPath × Bool × Progress).
              Advances progress q.2 × HasTree drive q.2.0 q.0 × IsFreeOrTree drive q.0 (0 ∷ []))
            (ok_inj h) ((([], sym (append-nil progress.0)), sound), there, along)
      insert_property_trees-Advances (name ∷ names) path any progress {r} along there sound h =
          let field = >>=-eq-ok (raw_field v drive reader info name) _ h in
          let named =
            >>=-eq-ok (insert_tree_once v drive path name info.storage_flags progress) _ field.2 in
          let filled =
            >>=-eq-ok
              (insert_tree_once v drive (path ++ (name ∷ [])) field.0 info.storage_flags named.0) _
              named.2 in
          let one =
            insert_tree_once-Advances path name info.storage_flags progress along.0 there sound
              named.1 in
          let is_field : field_of v drive reader info name ≡ field.0 = ap field_or_empty field.1 in
          let two =
            insert_tree_once-Advances (path ++ (name ∷ [])) field.0 info.storage_flags named.0
              (subst (λ (f : Bytes). IsFreeOrTree drive (path ++ (name ∷ [])) f) is_field along.1)
              one.1 one.0.1 filled.1 in
          let rest =
            insert_property_trees-Advances names _ _ filled.0
              (subst (λ (f : Bytes). HasTreesAlong names ((path ++ (name ∷ [])) ++ (f ∷ [])))
                is_field along.2)
              two.1 two.0.1 filled.2 in
          (
            Advances-trans progress named.0 r.2 one.0
                (Advances-trans named.0 filled.0 r.2 two.0 rest.0),
            rest.1,
            rest.2,
          )

      insert_reference-Advances :
          (shared : Bool) (path : KeyPath) (progress : Progress) {r : Progress}
          → IsFreeOrTree drive path (0 ∷ [])
          → HasTree drive progress.0 path
          → IsSound progress
          → insert_reference v drive reader info shared path progress ≡ ok r
          → Advances progress r
      unfolding insert_reference insert_shared_reference insert_unique_reference
      insert_reference-Advances true path progress {r} free there sound h =
          let step =
            >>=-eq-ok
              (batch_insert_empty_tree_if_not_exists v drive path (0 ∷ []) info.storage_flags
                progress.0)
              _ h in
          let goes =
            insert_empty_tree-Goes drive v path (0 ∷ []) info.storage_flags progress.0 free there
              sound.0 step.1 in
          let put =
            batch_insert-Goes drive (path ++ ((0 ∷ []) ∷ [])) (document_id v drive reader info)
              (document_reference v drive reader info) step.0.1 goes.1 goes.0.1 in
          let all = Goes-trans drive progress.0 step.0.1 _ goes.0 put in
          subst (λ (q : Progress). Advances progress q) (ok_inj step.2)
            (all.0, (all.1, cache-Extends progress.0 _ progress.1 all.0 sound.1))
      insert_reference-Advances false path progress {r} free there sound h =
          let step =
            >>=-eq-ok
              (batch_insert_if_not_exists drive path (0 ∷ [])
                (document_reference v drive reader info) progress.0)
              _ h in
          let goes =
            batch_insert_if_not_exists-Goes drive path (0 ∷ [])
              (document_reference v drive reader info) progress.0 there sound.0 step.1 in
          let taken = unless_taken-inserted v drive reader info progress.1 step.0 step.2 in
          subst (λ (q : Progress). Advances progress q) taken.1
            (goes.0, (goes.1, cache-Extends progress.0 step.0.1 progress.1 goes.0 sound.1))

      abbrev pub type_path : KeyPath
      type_path = contract_document_type_path info.contract_id info.document_type.name

      -- The storage has the tree of the first property of an index, and nothing or trees after it.
      abbrev pub HasTopTree : List Bytes → Type 0
      HasTopTree [] = Unit
      HasTopTree (top ∷ names) =
          TreeAt drive type_path top
          × IsFreeOrTree drive (type_path ++ (top ∷ [])) (field_of v drive reader info top)
          × HasTreesAlong names
              ((type_path ++ (top ∷ [])) ++ (field_of v drive reader info top ∷ []))

      add_to_index-Advances :
          (index : StoredIndex) (names : List Bytes) (progress : Progress) {r : Progress}
          → HasTopTree names
          → IsSound progress
          → add_to_index v drive reader info index names progress ≡ ok r
          → Advances progress r
      unfolding add_to_index
      add_to_index-Advances index [] progress there sound h = cc
      add_to_index-Advances index (top ∷ names) progress {r} there sound h =
          let path = type_path ++ (top ∷ []) in
          let field = >>=-eq-ok (raw_field v drive reader info top) _ h in
          let is_field : field_of v drive reader info top ≡ field.0 = ap field_or_empty field.1 in
          let started =
            >>=-eq-ok (insert_tree_once v drive path field.0 info.storage_flags progress) _
              field.2 in
          let built =
            >>=-eq-ok
              (insert_property_trees v drive reader info names (path ++ (field.0 ∷ []))
                (is_empty field.0) started.0)
              _ started.2 in
          let one =
            insert_tree_once-Advances path field.0 info.storage_flags progress
              (subst (λ (f : Bytes). IsFreeOrTree drive path f) is_field there.1)
              (type_path, top, refl, inl there.0) sound started.1 in
          let two =
            insert_property_trees-Advances names _ _ started.0
              (subst (λ (f : Bytes). HasTreesAlong names (path ++ (f ∷ []))) is_field there.2) one.1
              one.0.1 built.1 in
          let put = insert_reference-Advances _ built.0.0 built.0.2 two.2 two.1 two.0.1 built.2 in
          Advances-trans progress started.0 r one.0 (Advances-trans started.0 built.0.2 r two.0 put)

      abbrev pub HasIndexTrees : StoredIndex → Type 0
      HasIndexTrees index = HasTopTree index.properties

      add_to_indices-Grounded :
          (indices : List StoredIndex) (progress : Progress) {r : Progress}
          → All HasIndexTrees indices
          → IsSound progress
          → add_to_indices v drive reader info indices progress ≡ ok r
          → Grounded drive r.0
      unfolding add_to_indices
      add_to_indices-Grounded [] progress there sound h =
          subst (λ (q : Progress). Grounded drive q.0) (ok_inj h) sound.0
      add_to_indices-Grounded (index ∷ indices) progress there sound h =
          let added =
            >>=-eq-ok (add_to_index v drive reader info index index.properties progress) _ h in
          let here = add_to_index-Advances index index.properties progress there.0 sound added.1 in
          add_to_indices-Grounded indices added.0 there.1 here.1 added.2

      store_once-Grounded :
          (path : KeyPath) (key : Bytes) (unchecked : Bool) {r : List Operation}
          → HasTree drive [] path
          → (if unchecked
              then ok (batch_insert path key (document_item v drive reader info) [])
              else (batch_insert_if_not_exists drive path key (document_item v drive reader info) []
                  >>= λ step. unless_stored v drive reader info step))
            ≡ ok r
          → Grounded drive r
      store_once-Grounded path key true {r} there h =
          subst (Grounded drive) (ok_inj h)
            (batch_insert-Goes drive path key (document_item v drive reader info) [] there empty).1
      store_once-Grounded path key false {r} there h =
          let item = document_item v drive reader info in
          let step = >>=-eq-ok (batch_insert_if_not_exists drive path key item []) _ h in
          let stored = unless_stored-stored v drive reader info step.0 step.2 in
          subst (Grounded drive) stored.1
            (batch_insert_if_not_exists-Goes drive path key item [] there empty step.1).1

      history-Grounded :
          (time_ms : ℕ) {r : List Operation}
          → IsFreeOrTree drive
              (primary_key_path v drive reader info)
              (document_id v drive reader info)
          → HasTree drive [] (primary_key_path v drive reader info)
          → add_version_with_history v drive reader info time_ms [] ≡ ok r
          → Grounded drive r
      unfolding add_version_with_history contract_documents_primary_key_path
          contract_documents_keeping_history_primary_key_path_for_document_id
      history-Grounded time_ms free there h =
          let path = primary_key_path v drive reader info in
          let id = document_id v drive reader info in
          let versions = history_path v drive reader info in
          let step =
            >>=-eq-ok (batch_insert_empty_tree_if_not_exists v drive path id info.storage_flags [])
              _ h in
          let goes =
            insert_empty_tree-Goes drive v path id info.storage_flags [] free there empty step.1 in
          let one =
            batch_insert-Goes drive versions (encode_unsigned_integer time_ms)
              (document_item v drive reader info) step.0.1 goes.1 goes.0.1 in
          let two =
            batch_insert-Goes drive versions (0 ∷ []) _ _
              (HasTree-Extends drive step.0.1 _ versions one.0 goes.1) one.1 in
          subst (Grounded drive) (ok_inj step.2) two.1

      -- Where versions are kept, they have a tree under the document's identifier.
      abbrev pub HasVersionsTree : Bool → Type 0
      HasVersionsTree true =
          IsFreeOrTree drive (primary_key_path v drive reader info)
            (document_id v drive reader info)
      HasVersionsTree false = Unit

      storage-Grounded :
          (time_ms : ℕ) (unchecked : Bool) {r : List Operation}
          → HasVersionsTree info.document_type.documents_keep_history
          → HasTree drive [] (primary_key_path v drive reader info)
          → add_document_to_primary_storage v drive reader info time_ms unchecked [] ≡ ok r
          → Grounded drive r
      unfolding add_document_to_primary_storage
      storage-Grounded time_ms unchecked free there h =
          elim (Bool-cases info.document_type.documents_keep_history) [
            | inl keeps ↦
                let with_history = rw (add_document_to_primary_storage, keeps) at h in
                history-Grounded time_ms (subst HasVersionsTree keeps free) there with_history
            | inr forgets ↦
                let once = rw (add_document_to_primary_storage, forgets) at h in
                store_once-Grounded (primary_key_path v drive reader info)
                  (document_id v drive reader info) unchecked there once
          ]

      -- When the storage has the tree of the type's documents and, for every index, the tree of its
      -- first property, and has nothing or trees along the rest of each index, under key 0 at its end,
      -- and, for a type that keeps history, under the document's identifier, then each insertion of
      -- the batch that adds a document stands in a tree that the storage has or that the batch inserts
      -- before it, whichever of these trees are there already.
      pub add_new_document-Grounded :
          (time_ms : ℕ) (override_document : Bool) {r : List Operation}
          → TreeAt drive type_path (0 ∷ [])
          → HasVersionsTree info.document_type.documents_keep_history
          → All HasIndexTrees info.document_type.indices
          → add_new_document v drive reader info time_ms override_document [] ≡ ok r
          → Grounded drive r
      unfolding add_new_document contract_document_type_path contract_documents_primary_key_path
      add_new_document-Grounded time_ms override_document there versions tops h =
          let stored =
            >>=-eq-ok
              (add_document_to_primary_storage v drive reader info time_ms override_document []) _
              h in
          let indexed =
            >>=-eq-ok (add_to_indices v drive reader info info.document_type.indices (stored.0, []))
              _ stored.2 in
          let storage =
            storage-Grounded time_ms override_document versions (type_path, 0 ∷ [], refl, inl there)
              stored.1 in
          subst (Grounded drive) (ok_inj indexed.2) (
            add_to_indices-Grounded info.document_type.indices (stored.0, []) tops (storage, tt)
              indexed.1)
