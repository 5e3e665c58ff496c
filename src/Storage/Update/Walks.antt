-- ===== src/Storage/Update/Walks.antt =====
-- The walks over the properties of an index, with the new and the old fields
-- (drive/src/drive/document/update.rs).
use rs_platform.Common.{
  ◌≡◌, sym, ◌∙◌, ap, Bool, true, false, not, ◌||◌, ◌&&◌, List, [], ◌∷◌, ◌++◌, append-nil, Bytes,
  bytes_eq, ok, >>=-eq-ok, ok_inj,
}
use rs_platform.Flags.Codec.{VarInt}
use rs_platform.Storage.{KeyPath, Drive, DocumentReader, DocumentInfo}
use rs_platform.Storage.Paths.{is_empty}
use rs_platform.Storage.Locations.{
  references, field_or_empty, named_fields, all_empty, two_keys, or_assoc, or_false, and_assoc,
  and_true,
}
use rs_platform.Storage.Insert.{Progress, raw_field}
use rs_platform.Storage.Insert.Kept.{insert_tree_once-references}
use rs_platform.Storage.Insert.Writes.{field_of}
use rs_platform.Storage.Update.{
  Walk, insert_tree_if, old_raw_field, start_walk, walk_property, walk_properties,
}

module _ (v : VarInt) (drive : Drive) {D : Type 0} (reader : DocumentReader D)
    (info : DocumentInfo D) where
  insert_tree_if-references :
      (changed : Bool) (path : KeyPath) (key : Bytes) (progress : Progress) {r : Progress}
      → insert_tree_if v drive reader info changed path key progress ≡ ok r
      → references r.0 ≡ references progress.0
  unfolding insert_tree_if
  insert_tree_if-references true path key progress h =
      insert_tree_once-references v drive path key info.storage_flags progress h
  insert_tree_if-references false path key progress h =
      let same = ok_inj h in ap (λ (q : Progress). references q.0) (sym same)

  module _ (old_document : D) where
    abbrev pub old_field_of : Bytes → Bytes
    old_field_of name = field_or_empty (old_raw_field v drive reader info old_document name)

    abbrev pub new_field_of : Bytes → Bytes
    new_field_of name = field_of v drive reader info name

    abbrev pub differs : List Bytes → Bool
    differs [] = false
    differs (name ∷ names) = not (bytes_eq (new_field_of name) (old_field_of name)) || differs names

    -- What a walk over more names adds to it.
    abbrev pub Continues : List Bytes → Walk → Walk → Type 0
    Continues names walk next =
        (next.index_path ≡ walk.index_path ++ named_fields new_field_of names)
        × (next.old_index_path ≡ walk.old_index_path ++ named_fields old_field_of names)
        × (next.change_occurred_on_index ≡ (walk.change_occurred_on_index || differs names))
        × (next.all_fields_null ≡ (walk.all_fields_null && all_empty new_field_of names))
        × (references next.progress.0 ≡ references walk.progress.0)

    walk_property-Continues :
        (name : Bytes) (walk : Walk) {next : Walk}
        → walk_property v drive reader info old_document name walk ≡ ok next
        → (next.index_path ≡ (walk.index_path ++ (name ∷ [])) ++ (new_field_of name ∷ []))
          × (next.old_index_path ≡ (walk.old_index_path ++ (name ∷ [])) ++ (old_field_of name ∷ []))
          × (next.change_occurred_on_index ≡ (
              walk.change_occurred_on_index
              || not (bytes_eq (new_field_of name) (old_field_of name))))
          × (next.all_fields_null ≡ (walk.all_fields_null && is_empty (new_field_of name)))
          × (references next.progress.0 ≡ references walk.progress.0)
    unfolding walk_property
    walk_property-Continues name walk h =
        let field = >>=-eq-ok (raw_field v drive reader info name) _ h in
        let old_field = >>=-eq-ok (old_raw_field v drive reader info old_document name) _ field.2 in
        let changed = walk.change_occurred_on_index || not (bytes_eq field.0 old_field.0) in
        let named =
          >>=-eq-ok (insert_tree_if v drive reader info changed walk.index_path name walk.progress)
            _ old_field.2 in
        let filled =
          >>=-eq-ok
            (insert_tree_if v drive reader info changed (walk.index_path ++ (name ∷ [])) field.0
              named.0)
            _ named.2 in
        let is_field : field.0 ≡ new_field_of name = sym (ap field_or_empty field.1) in
        let is_old : old_field.0 ≡ old_field_of name = sym (ap field_or_empty old_field.1) in
        let same = ok_inj filled.2 in
        let kept =
          insert_tree_if-references changed (walk.index_path ++ (name ∷ [])) field.0 named.0
            filled.1
          ∙ insert_tree_if-references changed walk.index_path name walk.progress named.1 in
        (
          sym (ap (λ (w : Walk). w.index_path) same)
              ∙ ap (λ (f : Bytes). (walk.index_path ++ (name ∷ [])) ++ (f ∷ [])) is_field,
          sym (ap (λ (w : Walk). w.old_index_path) same)
              ∙ ap (λ (f : Bytes). (walk.old_index_path ++ (name ∷ [])) ++ (f ∷ [])) is_old,
          (sym (ap (λ (w : Walk). w.change_occurred_on_index) same)
                ∙ ap (λ (f : Bytes). walk.change_occurred_on_index || not (bytes_eq f old_field.0))
                    is_field)
              ∙ ap
                  (λ (f : Bytes).
                    walk.change_occurred_on_index || not (bytes_eq (new_field_of name) f))
                  is_old,
          sym (ap (λ (w : Walk). w.all_fields_null) same)
              ∙ ap (λ (f : Bytes). walk.all_fields_null && is_empty f) is_field,
          sym (ap (λ (w : Walk). references w.progress.0) same) ∙ kept,
        )

    pub walk_properties-Continues :
        (names : List Bytes) (walk : Walk) {last : Walk}
        → walk_properties v drive reader info old_document names walk ≡ ok last
        → Continues names walk last
    unfolding walk_properties
    walk_properties-Continues [] walk h =
        let same = ok_inj h in
        (
          sym (ap (λ (w : Walk). w.index_path) same) ∙ sym (append-nil walk.index_path),
          sym (ap (λ (w : Walk). w.old_index_path) same) ∙ sym (append-nil walk.old_index_path),
          sym (ap (λ (w : Walk). w.change_occurred_on_index) same)
              ∙ or_false walk.change_occurred_on_index,
          sym (ap (λ (w : Walk). w.all_fields_null) same) ∙ and_true walk.all_fields_null,
          sym (ap (λ (w : Walk). references w.progress.0) same),
        )
    walk_properties-Continues (name ∷ names) walk h =
        let next = >>=-eq-ok (walk_property v drive reader info old_document name walk) _ h in
        let one = walk_property-Continues name walk next.1 in
        let rest = walk_properties-Continues names next.0 next.2 in
        (
          (rest.0 ∙ ap (λ (p : KeyPath). p ++ named_fields new_field_of names) one.0)
              ∙ two_keys walk.index_path name (new_field_of name) (named_fields new_field_of names),
          (rest.1 ∙ ap (λ (p : KeyPath). p ++ named_fields old_field_of names) one.1)
              ∙ two_keys walk.old_index_path name (old_field_of name)
                  (named_fields old_field_of names),
          (rest.2 ∙ ap (λ (b : Bool). b || differs names) one.2)
              ∙ or_assoc walk.change_occurred_on_index
                  (not (bytes_eq (new_field_of name) (old_field_of name))) (differs names),
          (rest.3 ∙ ap (λ (b : Bool). b && all_empty new_field_of names) one.3)
              ∙ and_assoc walk.all_fields_null (is_empty (new_field_of name))
                  (all_empty new_field_of names),
          rest.4 ∙ one.4,
        )

    pub start_walk-Continues :
        (path : KeyPath) (name : Bytes) (progress : Progress) {next : Walk}
        → start_walk v drive reader info old_document path name progress ≡ ok next
        → (next.index_path ≡ (path ++ (name ∷ [])) ++ (new_field_of name ∷ []))
          × (next.old_index_path ≡ (path ++ (name ∷ [])) ++ (old_field_of name ∷ []))
          × (next.change_occurred_on_index ≡ not (bytes_eq (new_field_of name) (old_field_of name)))
          × (next.all_fields_null ≡ is_empty (new_field_of name))
          × (references next.progress.0 ≡ references progress.0)
    unfolding start_walk
    start_walk-Continues path name progress h =
        let field = >>=-eq-ok (raw_field v drive reader info name) _ h in
        let old_field = >>=-eq-ok (old_raw_field v drive reader info old_document name) _ field.2 in
        let changed = not (bytes_eq field.0 old_field.0) in
        let inserted =
          >>=-eq-ok
            (insert_tree_if v drive reader info changed (path ++ (name ∷ [])) field.0 progress) _
            old_field.2 in
        let is_field : field.0 ≡ new_field_of name = sym (ap field_or_empty field.1) in
        let is_old : old_field.0 ≡ old_field_of name = sym (ap field_or_empty old_field.1) in
        let same = ok_inj inserted.2 in
        (
          sym (ap (λ (w : Walk). w.index_path) same)
              ∙ ap (λ (f : Bytes). (path ++ (name ∷ [])) ++ (f ∷ [])) is_field,
          sym (ap (λ (w : Walk). w.old_index_path) same)
              ∙ ap (λ (f : Bytes). (path ++ (name ∷ [])) ++ (f ∷ [])) is_old,
          (sym (ap (λ (w : Walk). w.change_occurred_on_index) same)
                ∙ ap (λ (f : Bytes). not (bytes_eq f old_field.0)) is_field)
              ∙ ap (λ (f : Bytes). not (bytes_eq (new_field_of name) f)) is_old,
          sym (ap (λ (w : Walk). w.all_fields_null) same) ∙ ap is_empty is_field,
          sym (ap (λ (w : Walk). references w.progress.0) same)
              ∙ insert_tree_if-references changed (path ++ (name ∷ [])) field.0 progress inserted.1,
        )
