-- ===== src/Storage/Locations.antt =====
-- The references to a document that a batch writes, and where they belong: per index, the path of
-- the type, each property's name with the document's field, and the key.
use rs_platform.Common.{
  ◌≡◌, refl, sym, ◌∙◌, ap, Bool, true, false, ◌||◌, ◌&&◌, List, [], ◌∷◌, ◌++◌, append_assoc, Bytes,
  ok, err, if◌then◌else◌, length, length-append, arith,
}
use rs_platform.Fees.{grove_operation, calculated_cost_operation}
use rs_platform.Storage.{
  KeyPath, Element, item, tree, reference, upstream_root_height_reference, sibling_reference,
  insert_op, delete_op, delete_tree_op, Operation, StorageResult,
}
use rs_platform.Storage.Paths.{is_empty}

abbrev pub Write : Type 0
Write = KeyPath × Bytes × Element

abbrev pub reference_of : KeyPath → Bytes → Element → List Write
reference_of path key (item bytes flags) = []
reference_of path key (tree flags) = []
reference_of path key (reference (sibling_reference sibling) hops flags) = []
reference_of path key (reference (upstream_root_height_reference height rest) hops flags) =
    (path, key, reference (upstream_root_height_reference height rest) hops flags) ∷ []

-- The references to documents, in the order in which the batch writes them.
unfoldable pub references : List Operation → List Write
references [] = []
references (grove_operation (insert_op path key element) ∷ os) =
    reference_of path key element ++ references os
references (_ ∷ os) = references os

pub references-append :
    (os ps : List Operation) → references (os ++ ps) ≡ references os ++ references ps
unfolding references
references-append [] ps = refl
references-append (grove_operation (insert_op path key element) ∷ os) ps =
    ap (λ ws. reference_of path key element ++ ws) (references-append os ps)
    ∙ sym (append_assoc (reference_of path key element) (references os) (references ps))
references-append (grove_operation (delete_op path key) ∷ os) ps = references-append os ps
references-append (grove_operation (delete_tree_op path key) ∷ os) ps = references-append os ps
references-append (calculated_cost_operation c ∷ os) ps = references-append os ps
references-append (_ ∷ os) ps = references-append os ps

abbrev pub field_or_empty : StorageResult Bytes → Bytes
field_or_empty (ok field) = field
field_or_empty (err reason) = []

-- The names of an index, each before its field.
abbrev pub named_fields : (Bytes → Bytes) → List Bytes → KeyPath
named_fields field [] = []
named_fields field (name ∷ names) = name ∷ field name ∷ named_fields field names

abbrev pub has_empty : (Bytes → Bytes) → List Bytes → Bool
has_empty field [] = false
has_empty field (name ∷ names) = is_empty (field name) || has_empty field names

abbrev pub all_empty : (Bytes → Bytes) → List Bytes → Bool
all_empty field [] = true
all_empty field (name ∷ names) = is_empty (field name) && all_empty field names

-- Where a reference to the document with an identifier stands: in the tree at key 0 of the path,
-- by the identifier, if the references share the path, and else at key 0.
abbrev pub place : Bool → KeyPath → Bytes → KeyPath × Bytes
place shared path document_id =
    if shared then (path ++ ((0 ∷ []) ∷ []), document_id) else (path, 0 ∷ [])

pub two_keys :
    (path : KeyPath) (name field : Bytes) (rest : KeyPath)
    → ((path ++ (name ∷ [])) ++ (field ∷ [])) ++ rest ≡ path ++ name ∷ field ∷ rest
two_keys path name field rest =
    append_assoc (path ++ (name ∷ [])) (field ∷ []) rest
    ∙ append_assoc path (name ∷ []) (field ∷ rest)

pub or_false : (b : Bool) → b ≡ (b || false)
or_false true = refl
or_false false = refl

pub or_assoc : (a b c : Bool) → ((a || b) || c) ≡ (a || (b || c))
or_assoc true b c = refl
or_assoc false b c = refl

pub and_assoc : (a b c : Bool) → ((a && b) && c) ≡ (a && (b && c))
and_assoc true b c = refl
and_assoc false b c = refl

pub and_true : (b : Bool) → b ≡ (b && true)
and_true true = refl
and_true false = refl

not_longer : (path : KeyPath) → length (path ++ ((0 ∷ []) ∷ [])) ≡ length path → ⊥
not_longer path h = omega (arith, h, length-append path ((0 ∷ []) ∷ []))

pub place-injective :
    (a b : Bool) (path : KeyPath) (id : Bytes) → place a path id ≡ place b path id → b ≡ a
place-injective true true path id h = refl
place-injective false false path id h = refl
place-injective true false path id h =
    let longer = ap (λ (at : KeyPath × Bytes). length at.0) h in elim (not_longer path longer) [ ]
place-injective false true path id h =
    let longer = ap (λ (at : KeyPath × Bytes). length at.0) (sym h) in
    elim (not_longer path longer) [ ]
