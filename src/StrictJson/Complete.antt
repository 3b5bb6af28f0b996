-- ===== src/StrictJson/Complete.antt =====
-- strictjson/strictjson.go, `validateTokens` on the tokens of a value, for any value.
use go_toolbelt.Base.{
  ℕ, ◌+◌, ◌≤◌, ◌≡◌, ◌≢◌, refl, ◌∙◌, Bool, true, false, ◌&&◌, ◌||◌, String, List, [], ◌∷◌, Option,
  some, none, arith, length, if◌then◌else◌, Bool-cases, inl, inr, ◌==◌, contains, distinct,
  disjoint, disjoint-cons, disjoint-nil, not,
}
use go_toolbelt.StrictJson.{
  Error, Token, delim, text, scalar, ContainerFrame, Scan, Ending, at_eof, duplicate_name,
  max_nesting_depth, settle, object_frame, array_frame, delimiters_match, expect_key, round, scan,
  start,
}
use go_toolbelt.StrictJson.Grammar.{
  Value, atom, string, object, array, Fields, end, field, dangling, Items, nil, cons, names, print,
  print_fields, print_items, depth, depth_fields, depth_items, has_unique_names, unique_fields,
  unique_items,
}

-- The scanner stands where a value may come.
abbrev pub IsReady : List ContainerFrame → Bool → Type 0
IsReady [] root = root ≡ false
IsReady (f ∷ fs) root = (f.delimiter == b'{' && f.want_key) ≡ false

abbrev key_frame : List String → ContainerFrame
key_frame seen = record { delimiter = b'{'; seen = seen; want_key = true }

abbrev value_frame : List String → ContainerFrame
value_frame seen = record { delimiter = b'{'; seen = seen; want_key = false }

-- Behind a value, or at a first repeated name.
abbrev outcome : Bool → Scan → List Token → Ending → Option Error
outcome ok s rest last = if ok then scan s rest last else some duplicate_name

length-expect_key : (fs : List ContainerFrame) → length (expect_key fs) ≡ length fs
unfolding expect_key
length-expect_key [] = refl
length-expect_key (f ∷ fs) = refl

-- One token each, with the scanner's definitions open.
scan-scalar :
    (t : Token) (fs : List ContainerFrame) (root : Bool) (rest : List Token) (last : Ending)
    → IsReady fs root
    → ((d : ℕ) → t ≢ delim d)
    → scan (record { frames = fs; root_complete = root }) (t ∷ rest) last
      ≡ scan (settle (expect_key fs) root) rest last
unfolding scan round
scan-scalar (delim d) fs root rest last r h = absurd (h d refl)
scan-scalar (text k) [] root rest last r h = ground arith
scan-scalar (text k) (f ∷ fs) root rest last r h = ground arith
scan-scalar (scalar k) [] root rest last r h = ground arith
scan-scalar (scalar k) (f ∷ fs) root rest last r h = ground arith

scan-open :
    (array : Bool) (fs : List ContainerFrame) (root : Bool) (rest : List Token) (last : Ending)
    → IsReady fs root
    → length fs + 1 ≤ max_nesting_depth
    → scan
        (record { frames = fs; root_complete = root })
        (delim (if array then b'[' else b'{') ∷ rest)
        last
      ≡ scan
          (record {
            frames = (if array then array_frame else object_frame) ∷ expect_key fs;
            root_complete = root;
          })
          rest
          last
unfolding scan round expect_key
scan-open true [] root rest last r h = ground arith
scan-open false [] root rest last r h = ground arith
scan-open true (f ∷ fs) root rest last r h = ground arith
scan-open false (f ∷ fs) root rest last r h = ground arith

scan-name :
    (k : String) (seen : List String) (fs : List ContainerFrame) (root : Bool) (rest : List Token)
    (last : Ending)
    → scan (record { frames = key_frame seen ∷ fs; root_complete = root }) (text k ∷ rest) last ≡ (
        if contains seen k
        then some duplicate_name
        else scan (record { frames = value_frame (k ∷ seen) ∷ fs; root_complete = root }) rest last)
unfolding scan round
scan-name k seen fs root rest last = ground arith

scan-close :
    (f : ContainerFrame) (fs : List ContainerFrame) (root : Bool) (d : ℕ) (rest : List Token)
    (last : Ending)
    → (d == b'}' || d == b']') ≡ true
    → delimiters_match f.delimiter d ≡ true
    → scan (record { frames = f ∷ fs; root_complete = root }) (delim d ∷ rest) last
      ≡ scan (settle fs root) rest last
unfolding scan round
scan-close f fs root d rest last c h = ground arith

-- `a && b` of a verdict that a first part has passed.
outcome_and :
    (a b : Bool) (s : Scan) (rest : List Token) (last : Ending)
    → (if a then outcome b s rest last else some duplicate_name) ≡ outcome (a && b) s rest last
outcome_and true b s rest last = refl
outcome_and false b s rest last = refl

-- What the names of an object's members have to satisfy behind the names `seen`.
abbrev fields_ok : List String → Fields → Bool
fields_ok seen fs = disjoint seen (names fs) && (distinct (names fs) && unique_fields fs)

fields_ok-field :
    (seen : List String) (k : String) (v : Value) (fs : Fields)
    → fields_ok seen (field k v fs)
      ≡ (not (contains seen k) && (has_unique_names v && fields_ok (k ∷ seen) fs))
unfolding names has_unique_names disjoint distinct
fields_ok-field seen k v fs = ground (arith, disjoint-cons k seen (names fs))

fields_ok-dangling :
    (seen : List String) (k : String) → fields_ok seen (dangling k) ≡ not (contains seen k)
unfolding names has_unique_names disjoint distinct contains
fields_ok-dangling seen k = ground arith

expect_key-ready :
    (fs : List ContainerFrame) (seen : List String)
    → expect_key (value_frame seen ∷ fs) ≡ key_frame seen ∷ fs
unfolding expect_key
expect_key-ready fs seen = refl

array-settle :
    (fs : List ContainerFrame) (root : Bool)
    → settle (expect_key (array_frame ∷ fs)) root
      ≡ record { frames = array_frame ∷ fs; root_complete = root }
unfolding expect_key
array-settle fs root = refl

-- Behind a member name.
after_name :
    (ok : Bool) (k : String) (v : Value) (flds : Fields) (seen : List String)
    (fs : List ContainerFrame) (root : Bool) (rest : List Token) (last : Ending)
    → contains seen k ≡ false
    → scan
        (record { frames = value_frame (k ∷ seen) ∷ fs; root_complete = root })
        (print v (print_fields flds rest))
        last
      ≡ outcome ok
          (settle (expect_key (value_frame (k ∷ seen) ∷ fs)) root)
          (print_fields flds rest)
          last
    → scan
        (record { frames = key_frame (k ∷ seen) ∷ fs; root_complete = root })
        (print_fields flds rest)
        last
      ≡ outcome (fields_ok (k ∷ seen) flds) (settle fs root) rest last
    → scan
        (record { frames = key_frame seen ∷ fs; root_complete = root })
        (text k ∷ print v (print_fields flds rest))
        last
      ≡ outcome (ok && fields_ok (k ∷ seen) flds) (settle fs root) rest last
after_name ok k v flds seen fs root rest last e p q =
    scan-name k seen fs root (print v (print_fields flds rest)) last
    ∙ rw e (
        p
        ∙ rw (expect_key-ready fs (k ∷ seen))
            (rw q (outcome_and ok (fields_ok (k ∷ seen) flds) (settle fs root) rest last)))

repeated_name :
    (k : String) (seen : List String) (fs : List ContainerFrame) (root : Bool) (rest : List Token)
    (last : Ending)
    → contains seen k ≡ true
    → scan (record { frames = key_frame seen ∷ fs; root_complete = root }) (text k ∷ rest) last
      ≡ some duplicate_name
repeated_name k seen fs root rest last e = scan-name k seen fs root rest last ∙ rw e refl

mutual
  unfolding print depth has_unique_names names disjoint distinct

  scan-print :
      (v : Value) (fs : List ContainerFrame) (root : Bool) (rest : List Token) (last : Ending)
      → IsReady fs root
      → length fs + depth v ≤ max_nesting_depth
      → scan (record { frames = fs; root_complete = root }) (print v rest) last
        ≡ outcome (has_unique_names v) (settle (expect_key fs) root) rest last
  scan-print (atom s) fs root rest last r h = scan-scalar (scalar s) fs root rest last r (λ d e. cc)
  scan-print (string k) fs root rest last r h = scan-scalar (text k) fs root rest last r (λ d e. cc)
  scan-print (object flds) fs root rest last r h =
      scan-open false fs root (print_fields flds rest) last r (omega arith)
      ∙ scan-print_fields flds [] (expect_key fs) root rest last
          (omega (arith, length-expect_key fs))
      ∙ rw (disjoint-nil (names flds)) refl
  scan-print (array xs) fs root rest last r h =
      scan-open true fs root (print_items xs rest) last r (omega arith)
      ∙ scan-print_items xs (expect_key fs) root rest last (omega (arith, length-expect_key fs))

  scan-print_fields :
      (flds : Fields) (seen : List String) (fs : List ContainerFrame) (root : Bool)
      (rest : List Token) (last : Ending)
      → length fs + 1 + depth_fields flds ≤ max_nesting_depth
      → scan
          (record { frames = key_frame seen ∷ fs; root_complete = root })
          (print_fields flds rest)
          last
        ≡ outcome (fields_ok seen flds) (settle fs root) rest last
  scan-print_fields end seen fs root rest last h =
      scan-close (key_frame seen) fs root b'}' rest last refl refl
  scan-print_fields (field k v flds) seen fs root rest last h =
      rw (fields_ok-field seen k v flds) (elim (Bool-cases (contains seen k)) [
        | inl old ↦
            rw old (repeated_name k seen fs root (print v (print_fields flds rest)) last old)
        | inr new ↦ rw new (
            after_name (has_unique_names v) k v flds seen fs root rest last new
              (scan-print v (value_frame (k ∷ seen) ∷ fs) root (print_fields flds rest) last refl
                (omega arith))
              (scan-print_fields flds (k ∷ seen) fs root rest last (omega arith)))
      ])
  scan-print_fields (dangling k) seen fs root rest last h =
      rw (fields_ok-dangling seen k) (elim (Bool-cases (contains seen k)) [
        | inl old ↦ rw old (repeated_name k seen fs root (delim b'}' ∷ rest) last old)
        | inr new ↦ rw new (
            scan-name k seen fs root (delim b'}' ∷ rest) last
            ∙ rw new (scan-close (value_frame (k ∷ seen)) fs root b'}' rest last refl refl))
      ])

  scan-print_items :
      (xs : Items) (fs : List ContainerFrame) (root : Bool) (rest : List Token) (last : Ending)
      → length fs + 1 + depth_items xs ≤ max_nesting_depth
      → scan (record { frames = array_frame ∷ fs; root_complete = root }) (print_items xs rest) last
        ≡ outcome (unique_items xs) (settle fs root) rest last
  scan-print_items nil fs root rest last h = scan-close array_frame fs root b']' rest last refl refl
  scan-print_items (cons v xs) fs root rest last h =
      scan-print v (array_frame ∷ fs) root (print_items xs rest) last refl (omega arith)
      ∙ rw (array-settle fs root) (
          rw (scan-print_items xs fs root rest last (omega arith))
            (outcome_and (has_unique_names v) (unique_items xs) (settle fs root) rest last))

-- On the tokens of one value, nested at most `maxNestingDepth` deep, and then the end of the input,
-- the scan returns nil if in every object the names are pairwise different, and otherwise
-- `ErrDuplicateName`.
pub scan-value :
    (v : Value)
    → depth v ≤ max_nesting_depth
    → scan start (print v []) at_eof ≡ (if has_unique_names v then none else some duplicate_name)
unfolding scan round expect_key
scan-value v h = scan-print v [] false [] at_eof refl (omega arith)
