-- ===== src/Query/Group/Fields.antt =====
-- The fields of the conditions that `group_clauses` (drive/src/query/conditions.rs) returns.
use rs_platform.Common.{
  ◌≡◌, sym, ◌∙◌, ap, subst, inl, inr, Bool-cases, false, Option, none, some, List, [], ◌∷◌, ◌++◌,
  Bytes, ok, >>=-eq-ok, arith,
}
use rs_platform.Query.{WhereClause, ValueOps}
use rs_platform.Query.Group.{
  has_field, with_operator, is_equal, is_in, is_groupable, is_non_groupable, not_on_id,
  collect_equal, single_in, join_bounds, group_two, range_clause, group_clauses,
}

-- The fields that are known after some clauses.
abbrev known_after : List Bytes → List WhereClause → List Bytes
known_after known [] = known
known_after known (c ∷ cs) = known_after (c.field ∷ known) cs

-- Each clause is on a field that is not known, and that no clause before it is on.
abbrev pub AreFresh : List Bytes → List WhereClause → Type 0
AreFresh known [] = Unit
AreFresh known (c ∷ cs) = (has_field known c.field ≡ false) × AreFresh (c.field ∷ known) cs

AreFresh-append :
    (known : List Bytes) (xs ys : List WhereClause)
    → AreFresh known xs
    → AreFresh (known_after known xs) ys
    → AreFresh known (xs ++ ys)
AreFresh-append known [] ys h k = k
AreFresh-append known (x ∷ xs) ys h k = (h.0, AreFresh-append (x.field ∷ known) xs ys h.1 k)

abbrev pub to_list : Option WhereClause → List WhereClause
to_list none = []
to_list (some c) = c ∷ []

collect_equal-cons :
    (c : WhereClause) (cs : List WhereClause) (known : List Bytes)
    (r : List WhereClause × List Bytes)
    → collect_equal (c ∷ cs) known ≡ ok r
    → (has_field known c.field ≡ false)
      × ((rest : List WhereClause × List Bytes) × (collect_equal cs (c.field ∷ known) ≡ ok rest)
          × (r ≡ (c ∷ rest.0, rest.1)))
unfolding collect_equal
collect_equal-cons c cs known r e = elim (Bool-cases (has_field known c.field)) [
  | inl old ↦ absurd (ground arith)
  | inr fresh ↦ (fresh, collected fresh)
]
  where
    collected :
        has_field known c.field ≡ false
        → (rest : List WhereClause × List Bytes) × (collect_equal cs (c.field ∷ known) ≡ ok rest)
          × (r ≡ (c ∷ rest.0, rest.1))
    collected fresh =
        let (rest, p, q) = >>=-eq-ok (collect_equal cs (c.field ∷ known)) _ (rw fresh at e) in
        (rest, p, ground arith)

collect_equal_lem :
    (cs : List WhereClause) (known : List Bytes) (r : List WhereClause × List Bytes)
    → collect_equal cs known ≡ ok r
    → (r.0 ≡ cs) × (r.1 ≡ known_after known cs) × AreFresh known cs
unfolding collect_equal
collect_equal_lem [] known r e = (ground arith, ground arith, tt)
collect_equal_lem (c ∷ cs) known r e =
    let (fresh, collected) = collect_equal-cons c cs known r e in
    let (rest, p, q) = collected in
    let (same, after, later) = collect_equal_lem cs (c.field ∷ known) rest p in
    (ground (arith, q, same), ground (arith, q, after), (fresh, later))

single_in_lem :
    (cs : List WhereClause) (known : List Bytes) (r : Option WhereClause × List Bytes)
    → single_in cs known ≡ ok r
    → (to_list r.0 ≡ cs) × (r.1 ≡ known_after known cs) × AreFresh known cs
unfolding single_in
single_in_lem [] known r e = (ground arith, ground arith, tt)
single_in_lem (c ∷ []) known r e = ground arith
single_in_lem (c ∷ d ∷ cs) known r e = cc

range_clause-AreFresh :
    (v : ValueOps) (gs ns : List WhereClause) (known : List Bytes) (r : Option WhereClause)
    → range_clause v gs ns known ≡ ok r
    → AreFresh known (to_list r)
unfolding range_clause group_two join_bounds
range_clause-AreFresh v gs ns known none e = tt
range_clause-AreFresh v gs ns known (some c) e = ground arith

join_fresh :
    (es is rs : List WhereClause) (k k' : List Bytes)
    → k ≡ known_after [] es
    → k' ≡ known_after k is
    → AreFresh [] es
    → AreFresh k is
    → AreFresh k' rs
    → AreFresh [] (es ++ (is ++ rs))
join_fresh es is rs k k' p q h i r = AreFresh-append [] es (is ++ rs) h (
    subst (λ t. AreFresh t (is ++ rs)) p
      (AreFresh-append k is rs i (subst (λ t. AreFresh t rs) q r)))

-- The clauses that `group_clauses` returns are the equalities, the `in` clause and the range of
-- the input (those on `$id` left out of the first two), and their fields are all different.
group_clauses-AreFresh :
    (v : ValueOps) (cs equalities : List WhereClause) (r i : Option WhereClause)
    → group_clauses v cs ≡ ok (equalities, r, i)
    → (equalities ≡ not_on_id (with_operator is_equal cs))
      × (to_list i ≡ not_on_id (with_operator is_in cs))
      × AreFresh [] (equalities ++ (to_list i ++ to_list r))
unfolding group_clauses
group_clauses-AreFresh v cs equalities r i e =
    let es = not_on_id (with_operator is_equal cs) in
    let is = not_on_id (with_operator is_in cs) in
    let gs = with_operator is_groupable cs in
    let ns = with_operator is_non_groupable cs in
    let (eqs, p, q) = >>=-eq-ok (collect_equal es []) _ e in
    let (found, p', q') = >>=-eq-ok (single_in is eqs.1) _ q in
    let (range, p'', q'') = >>=-eq-ok (range_clause v gs ns found.1) _ q' in
    let (same, after, fresh) = collect_equal_lem es [] eqs p in
    let (same', after', fresh') = single_in_lem is eqs.1 found p' in
    let fresh'' = range_clause-AreFresh v gs ns found.1 range p'' in
    let e₀ : eqs.0 ≡ equalities = cc q'' in
    let e₁ : range ≡ r = cc q'' in
    let e₂ : found.0 ≡ i = cc q'' in
    (
      sym e₀ ∙ same,
      ap to_list (sym e₂) ∙ same',
      rw (← e₀, ← e₁, ← e₂, same, same')
          (join_fresh es is (to_list range) eqs.1 found.1 after after' fresh fresh' fresh''),
    )
