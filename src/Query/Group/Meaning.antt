-- ===== src/Query/Group/Meaning.antt =====
-- Two bounds that `group_clauses` (drive/src/query/conditions.rs) joins into one range.
use rs_platform.Common.{
  ◌≡◌, ◌⊎◌, inl, inr, ◌∙◌, ap, Bool, true, false, ◌&&◌, Option, none, some, List, [], ◌∷◌, Bytes,
  bytes_eq, bytes_eq→eq, ok, >>=-eq-ok, arith,
}
use rs_platform.Query.{
  WhereOperator, greater_than, greater_than_or_equals, less_than_op, less_than_or_equals, between,
  between_exclude_bounds, between_exclude_left, between_exclude_right, Value, array, nil, cons,
  WhereClause, ValueOps,
}
use rs_platform.Query.Group.{
  lower_bound_clause, upper_bound_clause, join_bounds, group_two, range_clause, with_operator,
  is_groupable, is_non_groupable, is_equal, is_in, not_on_id, collect_equal, single_in,
  group_clauses,
}

-- A pair of bounds that is accepted becomes a range.
group_two_some :
    (v : ValueOps) (a b : WhereClause) (known : List Bytes) → ¬ (group_two v a b known ≡ ok none)
unfolding group_two lower_bound_clause upper_bound_clause join_bounds
group_two_some v a b known e = ground arith

-- Whether a value meets a bound or a range, for any order on the values.
module _ (lt le : Value → Value → Bool) where
  abbrev pub meets_operator : WhereOperator → Value → Value → Bool
  meets_operator greater_than b x = lt b x
  meets_operator greater_than_or_equals b x = le b x
  meets_operator less_than_op b x = lt x b
  meets_operator less_than_or_equals b x = le x b
  meets_operator between (array (cons l (cons r nil))) x = le l x && le x r
  meets_operator between_exclude_bounds (array (cons l (cons r nil))) x = lt l x && lt x r
  meets_operator between_exclude_left (array (cons l (cons r nil))) x = lt l x && le x r
  meets_operator between_exclude_right (array (cons l (cons r nil))) x = le l x && lt x r
  meets_operator _ _ _ = false

  abbrev pub value_meets : WhereClause → Value → Bool
  value_meets c x = meets_operator c.operator c.value x

  -- Whether a document meets a bound or a range, by the value that it has in each field.
  abbrev pub meets : WhereClause → (Bytes → Value) → Bool
  meets c x = value_meets c (x c.field)

  -- The range that two bounds are joined into.
  join_bounds-meets :
      (v : ValueOps) (f : Bytes) (lower upper c : WhereClause) (x : Value)
      → join_bounds v f lower upper ≡ ok (some c)
      → (c.field ≡ f) × (value_meets c x ≡ (value_meets lower x && value_meets upper x))
  unfolding join_bounds
  join_bounds-meets v f lower upper c x e = ground arith

  -- The two bounds of the pair, whichever comes first.
  bounds_of_pair :
      (v : ValueOps) (a b c : WhereClause) (known : List Bytes)
      → group_two v a b known ≡ ok (some c)
      → (bytes_eq b.field a.field ≡ true)
        × ((join_bounds v a.field a b ≡ ok (some c)) ⊎ (join_bounds v a.field b a ≡ ok (some c)))
  unfolding group_two lower_bound_clause upper_bound_clause
  bounds_of_pair v a b c known e = ground arith

  same_value :
      (a b c : WhereClause) (x : Bytes → Value)
      → c.field ≡ a.field
      → b.field ≡ a.field
      → value_meets c (x a.field) ≡ (value_meets a (x a.field) && value_meets b (x a.field))
      → meets c x ≡ (meets a x && meets b x)
  same_value a b c x f g q = rw (f, g) (q)

  pub group_two-meets :
      (v : ValueOps) (a b c : WhereClause) (known : List Bytes) (x : Bytes → Value)
      → group_two v a b known ≡ ok (some c)
      → meets c x ≡ (meets a x && meets b x)
  group_two-meets v a b c known x e =
      let (same, pair) = bounds_of_pair v a b c known e in
      elim pair [
        | inl p ↦
            let (f, q) = join_bounds-meets v a.field a b c (x a.field) p in
            same_value a b c x f (bytes_eq→eq b.field a.field same) q
        | inr p ↦
            let (f, q) = join_bounds-meets v a.field b a c (x a.field) p in
            same_value a b c x f (bytes_eq→eq b.field a.field same) (q ∙ ground arith)
      ]

  abbrev pub all_meet : List WhereClause → (Bytes → Value) → Bool
  all_meet [] x = true
  all_meet (c ∷ cs) x = meets c x && all_meet cs x

  abbrev pub range_meets : Option WhereClause → (Bytes → Value) → Bool
  range_meets none x = true
  range_meets (some c) x = meets c x

  -- What the range stands for, by the two lists of range conditions.
  abbrev pub StandsFor : List WhereClause → List WhereClause → Option WhereClause → Type 0
  StandsFor gs [] r = (x : Bytes → Value) → range_meets r x ≡ all_meet gs x
  StandsFor gs (n ∷ ns) r = (gs ≡ []) × (ns ≡ []) × (r ≡ some n)

  range_clause-StandsFor :
      (v : ValueOps) (gs ns : List WhereClause) (known : List Bytes) (r : Option WhereClause)
      → range_clause v gs ns known ≡ ok r
      → StandsFor gs ns r
  unfolding range_clause
  range_clause-StandsFor v [] [] known r e = λ x. ground arith
  range_clause-StandsFor v (a ∷ []) [] known r e = λ x. ground arith
  range_clause-StandsFor v (a ∷ b ∷ []) [] known none e = absurd (group_two_some v a b known e)
  range_clause-StandsFor v (a ∷ b ∷ []) [] known (some c) e =
      λ x. group_two-meets v a b c known x e ∙ ground arith
  range_clause-StandsFor v (a ∷ b ∷ c ∷ gs) [] known r e = cc
  range_clause-StandsFor v [] (n ∷ []) known r e = ground arith
  range_clause-StandsFor v [] (n ∷ m ∷ ns) known r e = cc
  range_clause-StandsFor v (g ∷ gs) (n ∷ ns) known r e = cc

  -- The range that `group_clauses` returns stands for all the range conditions: where these are
  -- plain bounds, a document meets the range exactly when it meets all of them, each with the value
  -- of its own field, whatever the order of values is; a condition of another kind is the only one,
  -- and is the range itself.
  pub group_clauses-StandsFor :
      (v : ValueOps) (cs equalities : List WhereClause) (r i : Option WhereClause)
      → group_clauses v cs ≡ ok (equalities, r, i)
      → StandsFor (with_operator is_groupable cs) (with_operator is_non_groupable cs) r
  unfolding group_clauses
  group_clauses-StandsFor v cs equalities r i e =
      let (eqs, p, q) = >>=-eq-ok (collect_equal (not_on_id (with_operator is_equal cs)) []) _ e in
      let (found, p', q') = >>=-eq-ok (single_in (not_on_id (with_operator is_in cs)) eqs.1) _ q in
      let (range, p'', q'') =
        >>=-eq-ok
          (range_clause v (with_operator is_groupable cs) (with_operator is_non_groupable cs)
            found.1)
          _ q' in
      range_clause-StandsFor v (with_operator is_groupable cs) (with_operator is_non_groupable cs)
        found.1 r (p'' ∙ ap ok (cc))
