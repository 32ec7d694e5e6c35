-- ===== src/Query/Shape.antt =====
-- What projection keeps of a row, and which records rows become.
use dalgo2http.Prelude.{
  is_some, All, ℕ, String, ◌≡◌, refl, sym, ◌∙◌, ap, Bool, true, ◌||◌, List, [], ◌∷◌, map, Option,
  none, some, ◌==◌, eq_iff, arith, if◌then◌else◌, Dict, lookup, insert, flag, keep, Bool-cases,
  Option-cases, among, flag-insert, flag-nil, subst, inl, inr,
}
use dalgo2http.Errors.{Raises-bind, Raises-wrap_error, Returns, ok, >>=-eq-ok, ok_inj}
use dalgo2http.Value.{Any, Row, object, to_fields}
use dalgo2http.Runtime.{Go}
use dalgo2http.Descriptor.{Collection}
use dalgo2http.Query.{
  keep_fields, apply_projection, Record, row_to_record, record_data, rows_to_records,
}

flag-keep_fields :
    (fields : List String) (wanted : Dict Bool) (k : String)
    → flag k (keep_fields fields wanted) ≡ (among k fields || flag k wanted)
unfolding keep_fields
flag-keep_fields [] wanted k = refl
flag-keep_fields (f ∷ fields) wanted k =
    ground (arith, flag-keep_fields fields (insert f true wanted) k, flag-insert f k wanted)

-- keeping the entries whose key passes a test
lookup-keep :
    (test : String → Bool) (row : Row) (k : String)
    → lookup k (keep (λ (e : String × Any). test e.0) row) ≡ (if test k then lookup k row else none)
unfolding lookup
lookup-keep test [] k = ground arith
lookup-keep test ((j, v) ∷ row) k = elim (Bool-cases (j == k)) [
  | inl e ↦ elim (Bool-cases (test j)) [
    | inl t ↦ rw (t, e, ← ap test ((eq_iff j k).0 e), t) refl
    | inr f ↦ rw (f, lookup-keep test row k, ← ap test ((eq_iff j k).0 e), f) refl
  ]
  | inr n ↦ elim (Bool-cases (test j)) [
    | inl t ↦ rw (t, n, lookup-keep test row k) refl
    | inr f ↦ rw (f, n, lookup-keep test row k) refl
  ]
]

flag-wanted :
    (fields : List String) (key_field k : String)
    → flag k (insert key_field true (keep_fields fields [])) ≡ (key_field == k || among k fields)
flag-wanted fields key_field k = ground (
  arith,
  flag-insert key_field k (keep_fields fields []),
  flag-keep_fields fields [] k,
  flag-nil k,
)

-- Each projected row has the value of the row it was made from in every field that was asked for
-- and in the key field, and no other field.
pub apply_projection-lookup :
    (rows : List Row) (fields : List String) (key_field : String) (k : String)
    → map (lookup k) (apply_projection rows fields key_field)
      ≡ map (λ row. if key_field == k || among k fields then lookup k row else none) rows
unfolding apply_projection
apply_projection-lookup [] fields key_field k = refl
apply_projection-lookup (row ∷ rows) fields key_field k = λ i.
    (lookup-keep (λ j. flag j (insert key_field true (keep_fields fields []))) row k
        ∙ ap (λ b. if b then lookup k row else none) (flag-wanted fields key_field k))
      i
    ∷ apply_projection-lookup rows fields key_field k i

-- What a record is, given the row that it was made from.
abbrev pub IsRecordOf : Go → Collection → Option ℕ → Record → Row → Type 0
IsRecordOf g coll into_record rec row =
    (v : Any) × (lookup coll.key_field row ≡ some v)
    × (rec.id ≡ g.sprint v)
    × (rec.collection ≡ coll.name)
    × (record_data g into_record row ≡ ok rec.value)

-- The lists have the same length, and their entries are related in order.
abbrev pub Zipped : (Record → Row → Type 0) → List Record → List Row → Type 0
Zipped R [] [] = Unit
Zipped R (rec ∷ recs) (row ∷ rows) = R rec row × Zipped R recs rows
Zipped R _ _ = ⊥

row_to_record-IsRecordOf :
    (g : Go) (coll : Collection) (into_record : Option ℕ) (row : Row) (rec : Record)
    → row_to_record g coll into_record row ≡ ok rec
    → IsRecordOf g coll into_record rec row
unfolding row_to_record
row_to_record-IsRecordOf g coll into_record row rec e =
    elim (Option-cases (lookup coll.key_field row)) [
      | inl missing ↦ absurd (cc (rw (missing, row_to_record) at e))
      | inr (v, found) ↦
          let (value, made, shape) =
            >>=-eq-ok (record_data g into_record row) _ (rw (found, row_to_record) at e) in
          let same = ok_inj _ rec shape in
          (
            v,
            found,
            ap (λ (r : Record). r.id) (sym same),
            ap (λ (r : Record). r.collection) (sym same),
            made ∙ ap (λ (r : Record). ok r.value) same,
          )
    ]

-- When rows become records, there is one record for each row, in order: its collection is the
-- collection's name, its ID the text of the row's key field, which every row has, and its data the
-- row, or what the caller's factory makes of it.
pub rows_to_records-Zipped :
    (g : Go) (coll : Collection) (into_record : Option ℕ) (rows : List Row) (records : List Record)
    → rows_to_records g coll rows into_record ≡ ok records
    → Zipped (IsRecordOf g coll into_record) records rows
unfolding rows_to_records
rows_to_records-Zipped g coll into_record [] [] e = tt
rows_to_records-Zipped g coll into_record [] (r ∷ rs) e = cc
rows_to_records-Zipped g coll into_record (row ∷ rows) records e =
    let (rec, first, e₁) = >>=-eq-ok (row_to_record g coll into_record row) _ e in
    let (recs, later, shape) = >>=-eq-ok (rows_to_records g coll rows into_record) _ e₁ in
    subst (λ rs. Zipped (IsRecordOf g coll into_record) rs (row ∷ rows)) (ok_inj _ records shape)
      (
        row_to_record-IsRecordOf g coll into_record row rec first,
        rows_to_records-Zipped g coll into_record rows recs later,
      )

row_to_record-Returns :
    (g : Go) (coll : Collection) (into_record : Option ℕ) (row : Row)
    → ((factory : ℕ) → Returns (g.map_to_data factory row))
    → Returns (row_to_record g coll into_record row)
unfolding row_to_record record_data
row_to_record-Returns g coll into_record row h = elim (Option-cases (lookup coll.key_field row)) [
  | inl missing ↦ rw (missing, row_to_record) tt
  | inr (id, found) ↦
      rw (found, row_to_record)
        (Raises-bind _ (record_data g into_record row) _ (by_factory into_record) (λ value. tt))
]
  where
    by_factory : (o : Option ℕ) → Returns (record_data g o row)
    by_factory none = tt
    by_factory (some factory) =
        Raises-wrap_error _ _ _ (g.map_to_data factory row) (λ e x. tt) (h factory)

-- making records never panics, if filling the caller's data does not
pub rows_to_records-Returns :
    (g : Go) (coll : Collection) (rows : List Row) (into_record : Option ℕ)
    → ((factory : ℕ) (row : Row) → Returns (g.map_to_data factory row))
    → Returns (rows_to_records g coll rows into_record)
unfolding rows_to_records
rows_to_records-Returns g coll [] into_record h = tt
rows_to_records-Returns g coll (row ∷ rows) into_record h =
    Raises-bind _ (row_to_record g coll into_record row) _
      (row_to_record-Returns g coll into_record row (λ factory. h factory row))
      λ rec.
        Raises-bind _ (rows_to_records g coll rows into_record) _
          (rows_to_records-Returns g coll rows into_record h) (λ records. tt)

row_to_record-keyed :
    (g : Go) (coll : Collection) (row : Row)
    → is_some (lookup coll.key_field row) ≡ true
    → (rec : Record) × (row_to_record g coll none row ≡ ok rec)
unfolding row_to_record record_data
row_to_record-keyed g coll row h = elim (Option-cases (lookup coll.key_field row)) [
  | inl missing ↦ absurd (cc (rw missing at h))
  | inr (id, found) ↦ (
    record { collection = coll.name; id = g.sprint id; value = object (to_fields row) },
    rw (found, row_to_record) refl,
  )
]

-- rows that have the key field become records, where the query brings no record factory
pub rows_to_records-keyed :
    (g : Go) (coll : Collection) (rows : List Row)
    → All (λ (row : Row). is_some (lookup coll.key_field row) ≡ true) rows
    → (records : List Record) × (rows_to_records g coll rows none ≡ ok records)
unfolding rows_to_records
rows_to_records-keyed g coll [] h = ([], refl)
rows_to_records-keyed g coll (row ∷ rows) (here, h) =
    let (rec, first) = row_to_record-keyed g coll row here in
    let (recs, later) = rows_to_records-keyed g coll rows h in (rec ∷ recs, rw (first, later) refl)
