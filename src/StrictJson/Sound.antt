-- ===== src/StrictJson/Sound.antt =====
-- strictjson/strictjson.go, `validateTokens`: what an accepted sequence of tokens is.
use Prim.Native.Nat.{max}
use go_toolbelt.Base.{
  ℕ, ◌+◌, ◌≤◌, ◌≡◌, ◌≢◌, refl, ap, sym, subst, ◌∙◌, Bool, true, false, ◌&&◌, ◌||◌, String, List, [],
  ◌∷◌, Option, none, arith, length, if◌then◌else◌, Bool-cases, inl, inr, ◌==◌, ◌⊎◌, contains,
}
use go_toolbelt.StrictJson.{
  Error, Token, delim, text, scalar, ContainerFrame, Scan, Round, Ending, at_eof, continue, return,
  max_nesting_depth, settle, object_frame, array_frame, expect_key, round, scan, start, refuse,
  delimiters_match, frame_token, key_token, value_token, close_container, open_container, verdict,
  ending_result, at_failure,
}
use go_toolbelt.StrictJson.Complete.{scan-value}
use go_toolbelt.StrictJson.Grammar.{
  has_unique_names, Value, atom, string, object, array, Fields, end, field, dangling, Items, nil,
  cons, print, print_fields, print_items, depth, depth_fields, depth_items,
}

-- The tokens `ts` complete the container of frame `f`, which `n` others enclose, and leave `us`.
-- An object that waits for a value has the value, or ends at once behind its last name.
data Part (f : ContainerFrame) (n : ℕ) (ts us : List Token) : Type 0 where
  items :
      (xs : Items)
      → f.delimiter ≡ b'['
      → n + 1 + depth_items xs ≤ max_nesting_depth
      → ts ≡ print_items xs us
      → Part f n ts us
  fields :
      (flds : Fields)
      → f.delimiter ≡ b'{'
      → f.want_key ≡ true
      → n + 1 + depth_fields flds ≤ max_nesting_depth
      → ts ≡ print_fields flds us
      → Part f n ts us
  member :
      (v : Value) (flds : Fields)
      → f.delimiter ≡ b'{'
      → f.want_key ≡ false
      → n + 1 + max (depth v) (depth_fields flds) ≤ max_nesting_depth
      → ts ≡ print v (print_fields flds us)
      → Part f n ts us
  cut : f.delimiter ≡ b'{' → f.want_key ≡ false → ts ≡ delim b'}' ∷ us → Part f n ts us

-- The tokens complete all the open containers, the innermost first.
abbrev Closes : List ContainerFrame → List Token → Type 0
Closes [] ts = ts ≡ []
Closes (f ∷ fs) ts = (us : List Token) × Part f (length fs) ts us × Closes fs us

abbrev IsValue : ℕ → List Token → List Token → Type 0
IsValue n ts us = (v : Value) × (n + depth v ≤ max_nesting_depth) × (ts ≡ print v us)

abbrev AcceptsFrom : List ContainerFrame → Bool → List Token → Type 0
AcceptsFrom [] false ts = IsValue 0 ts []
AcceptsFrom [] true ts = ts ≡ []
AcceptsFrom (f ∷ fs) root ts = Closes (f ∷ fs) ts

abbrev Accepts : Scan → List Token → Type 0
Accepts s ts = AcceptsFrom s.frames s.root_complete ts

Accepts-settle :
    (fs : List ContainerFrame) (root : Bool) (ts : List Token)
    → Accepts (settle fs root) ts
    → Closes fs ts
Accepts-settle [] root ts a = a
Accepts-settle (f ∷ fs) root ts a = a

abbrev awaited : ContainerFrame → ContainerFrame
awaited f = if f.delimiter == b'{' then record f { want_key = true } else f

value-Part :
    (f : ContainerFrame) (n : ℕ) (ts us ws : List Token)
    → (f.delimiter == b'{' && f.want_key) ≡ false
    → IsValue (n + 1) ts us
    → Part (awaited f) n us ws
    → Part f n ts ws
unfolding print depth
value-Part f n ts us ws r (v, h, e) (items xs d k p) =
    items (cons v xs) (ground arith) (omega arith) (e ∙ ap (print v) p)
value-Part f n ts us ws r (v, h, e) (fields flds d w k p) =
    member v flds (ground arith) (ground arith) (omega arith) (e ∙ ap (print v) p)
value-Part f n ts us ws r (v, h, e) (member u flds d w k p) = absurd (ground arith)
value-Part f n ts us ws r (v, h, e) (cut d w p) = absurd (ground arith)

array-IsValue :
    (n : ℕ) (ts us : List Token) → Part array_frame n ts us → IsValue n (delim b'[' ∷ ts) us
unfolding print depth
array-IsValue n ts us (items xs d h e) = (array xs, omega arith, ap (◌∷◌ (delim b'[')) e)
array-IsValue n ts us (fields flds d w h e) = absurd (omega arith)
array-IsValue n ts us (member v flds d w h e) = absurd (omega arith)
array-IsValue n ts us (cut d w e) = absurd (omega arith)

object-IsValue :
    (n : ℕ) (ts us : List Token) → Part object_frame n ts us → IsValue n (delim b'{' ∷ ts) us
unfolding print depth
object-IsValue n ts us (items xs d h e) = absurd (omega arith)
object-IsValue n ts us (fields flds d w h e) = (object flds, omega arith, ap (◌∷◌ (delim b'{')) e)
object-IsValue n ts us (member v flds d w h e) = absurd cc
object-IsValue n ts us (cut d w e) = absurd cc

name-Part :
    (f : ContainerFrame) (k : String) (n : ℕ) (ts us : List Token)
    → f.delimiter ≡ b'{'
    → f.want_key ≡ true
    → n + 1 ≤ max_nesting_depth
    → Part (record f { seen = k ∷ f.seen; want_key = false }) n ts us
    → Part f n (text k ∷ ts) us
unfolding print depth
name-Part f k n ts us q r b (items xs d h e) = absurd (omega arith)
name-Part f k n ts us q r b (fields flds d w h e) = absurd cc
name-Part f k n ts us q r b (member v flds d w h e) =
    fields (field k v flds) d r (omega arith) (ap (◌∷◌ (text k)) e)
name-Part f k n ts us q r b (cut d w e) =
    fields (dangling k) d r (omega arith) (ap (◌∷◌ (text k)) e)

continue_if :
    (b : Bool) (s s' : Scan)
    → (if b then continue s else refuse) ≡ continue s'
    → (b ≡ true) × (s ≡ s')
continue_if true s s' e = (refl, cc)
continue_if false s s' e = absurd cc

continue_inj : (s s' : Scan) → continue s ≡ continue s' → s ≡ s'
continue_inj s s' e = cc

-- The frames before and behind a round, and the tokens that the later rounds read.
module _ (f : ContainerFrame) (fs : List ContainerFrame) (root : Bool) (s' : Scan) (ts : List Token)
    (fits : length fs + 1 ≤ max_nesting_depth) (later : Accepts s' ts) where
  settle-Closes : settle fs root ≡ s' → Closes fs ts
  settle-Closes e = Accepts-settle fs root ts (subst (λ s. Accepts s ts) (sym e) later)

  key_token-Closes :
      (t : Token)
      → f.delimiter ≡ b'{'
      → f.want_key ≡ true
      → key_token f fs root t ≡ continue s'
      → Closes (f ∷ fs) (t ∷ ts)
  unfolding key_token print depth
  key_token-Closes (delim d) q w e =
      let (same, next) = continue_if (d == b'}') (settle fs root) s' e in
      (ts, fields end q w (omega arith) (ground arith), settle-Closes next)
  key_token-Closes (scalar v) q w e = absurd cc
  key_token-Closes (text k) q w e = elim (Bool-cases (contains f.seen k)) [
    | inl old ↦ absurd (let g = rw old at e in cc)
    | inr new ↦
        let g = continue_inj _ s' (rw new at e) in
        let (us, part, rest) = subst (λ s. Accepts s ts) (sym g) later in
        (us, name-Part f k (length fs) ts us q w fits part, rest)
  ]

  -- A scalar or a text.
  atom-Closes :
      (t : Token) (v : Value)
      → (f.delimiter == b'{' && f.want_key) ≡ false
      → depth v ≡ 0
      → ((us : List Token) → t ∷ us ≡ print v us)
      → continue (settle (expect_key (f ∷ fs)) root) ≡ continue s'
      → Closes (f ∷ fs) (t ∷ ts)
  unfolding expect_key
  atom-Closes t v r z p e =
      let (us, part, rest) = subst (λ s. Accepts s ts) (sym (continue_inj _ s' e)) later in
      (us, value-Part f (length fs) (t ∷ ts) ts us r (v, omega arith, p ts) part, rest)

  close-Closes :
      (d : ℕ)
      → (f.delimiter == b'{' && f.want_key) ≡ false
      → close_container (f ∷ fs) root d ≡ continue s'
      → Closes (f ∷ fs) (delim d ∷ ts)
  unfolding close_container print depth
  close-Closes d r e =
      let (same, next) = continue_if (delimiters_match f.delimiter d) (settle fs root) s' e in
      elim (Bool-cases (f.delimiter == b'{')) [
        | inl curly ↦ (ts, cut (ground arith) (ground arith) (ground arith), settle-Closes next)
        | inr square ↦
            (ts, items nil (ground arith) (omega arith) (ground arith), settle-Closes next)
      ]

open-IsValue :
    (cs : List ContainerFrame) (root : Bool) (d : ℕ) (s' : Scan) (ts : List Token)
    → open_container cs root d ≡ continue s'
    → length cs ≤ max_nesting_depth
    → Accepts s' ts
    → (us : List Token) × IsValue (length cs) (delim d ∷ ts) us × Closes cs us
unfolding open_container
open-IsValue cs root d s' ts e b later = elim (Bool-cases (length cs == max_nesting_depth)) [
  | inl full ↦ absurd (let g = rw full at e in cc)
  | inr room ↦ elim (Bool-cases (d == b'{')) [
    | inl curly ↦
        let g = continue_inj _ s' (rw (room, curly) at e) in
        let (us, part, rest) = subst (λ s. Accepts s ts) (sym g) later in
        let h : d ≡ b'{' = ground arith in (us, rw h (object-IsValue (length cs) ts us part), rest)
    | inr other ↦
        let (square, g) =
          continue_if (d == b'[') (record { frames = array_frame ∷ cs; root_complete = root }) s'
            (rw (room, other) at e) in
        let (us, part, rest) = subst (λ s. Accepts s ts) (sym g) later in
        let h : d ≡ b'[' = ground arith in (us, rw h (array-IsValue (length cs) ts us part), rest)
  ]
]

-- One round, the tokens behind it being accepted.
module _ (s' : Scan) (ts : List Token) (later : Accepts s' ts) where
  value_token-Closes :
      (f : ContainerFrame) (fs : List ContainerFrame) (root : Bool) (t : Token)
      → length fs + 1 ≤ max_nesting_depth
      → (f.delimiter == b'{' && f.want_key) ≡ false
      → value_token (f ∷ fs) root t ≡ continue s'
      → Closes (f ∷ fs) (t ∷ ts)
  unfolding value_token expect_key print depth
  value_token-Closes f fs root (text k) b r e =
      atom-Closes f fs root s' ts b later (text k) (string k) r refl (λ us. refl) e
  value_token-Closes f fs root (scalar v) b r e =
      atom-Closes f fs root s' ts b later (scalar v) (atom v) r refl (λ us. refl) e
  value_token-Closes f fs root (delim d) b r e = elim (Bool-cases (d == b'}' || d == b']')) [
    | inl closing ↦ close-Closes f fs root s' ts b later d r (rw closing at e)
    | inr opening ↦
        let (us, (v, h, p), (ws, part, rest)) =
          open-IsValue (expect_key (f ∷ fs)) root d s' ts (rw opening at e) (omega arith) later in
        (ws, value-Part f (length fs) (delim d ∷ ts) us ws r (v, omega arith, p) part, rest)
  ]

  root_atom-IsValue :
      (t : Token) (v : Value)
      → depth v ≡ 0
      → ((us : List Token) → t ∷ us ≡ print v us)
      → continue (settle [] false) ≡ continue s'
      → IsValue 0 (t ∷ ts) []
  root_atom-IsValue t v z p e =
      let h : ts ≡ [] = subst (λ s. Accepts s ts) (sym (continue_inj _ s' e)) later in
      (v, omega arith, ap (◌∷◌ t) h ∙ p [])

  root_token-IsValue : (t : Token) → value_token [] false t ≡ continue s' → IsValue 0 (t ∷ ts) []
  unfolding value_token expect_key print depth close_container
  root_token-IsValue (text k) e = root_atom-IsValue (text k) (string k) refl (λ us. refl) e
  root_token-IsValue (scalar v) e = root_atom-IsValue (scalar v) (atom v) refl (λ us. refl) e
  root_token-IsValue (delim d) e = elim (Bool-cases (d == b'}' || d == b']')) [
    | inl closing ↦ absurd (let g = rw closing at e in cc)
    | inr opening ↦
        let (us, (v, h, p), rest) =
          open-IsValue [] false d s' ts (rw opening at e) (omega arith) later in
        (v, omega arith, p ∙ ap (print v) rest)
  ]

  frame_token-Accepts :
      (fs : List ContainerFrame) (r : Bool) (t : Token)
      → length fs ≤ max_nesting_depth
      → frame_token fs r t ≡ continue s'
      → AcceptsFrom fs r (t ∷ ts)
  unfolding frame_token
  frame_token-Accepts [] true t b e = absurd cc
  frame_token-Accepts [] false t b e = root_token-IsValue t e
  frame_token-Accepts (f ∷ fs) r t b e = elim (Bool-cases (f.delimiter == b'{' && f.want_key)) [
    | inl naming ↦
        key_token-Closes f fs r s' ts (omega arith) later t (ground arith) (ground arith)
          (rw naming at e)
    | inr valuing ↦ value_token-Closes f fs r t (omega arith) valuing (rw valuing at e)
  ]

length-settle :
    (fs : List ContainerFrame) (root : Bool) → length (settle fs root).frames ≡ length fs
length-settle [] root = refl
length-settle (f ∷ fs) root = refl

-- No round opens more containers than the limit.
frame_token-depth :
    (fs : List ContainerFrame) (root : Bool) (t : Token) (s' : Scan)
    → length fs ≤ max_nesting_depth
    → frame_token fs root t ≡ continue s'
    → length s'.frames ≤ max_nesting_depth
unfolding frame_token
frame_token-depth [] true t s' h e = absurd cc
frame_token-depth [] false t s' h e = ground arith
frame_token-depth (f ∷ fs) root t s' h e =
    ground (arith, length-settle fs root, length-settle (f ∷ fs) root)

-- A round that reads a token never returns nil.
frame_token-ne-nil :
    (fs : List ContainerFrame) (root : Bool) (t : Token) → frame_token fs root t ≢ return none
unfolding frame_token
frame_token-ne-nil [] true t e = cc
frame_token-ne-nil [] false t e = ground arith
frame_token-ne-nil (f ∷ fs) root t e = ground arith

end-Accepts :
    (fs : List ContainerFrame) (root : Bool) (last : Ending)
    → verdict (round (record { frames = fs; root_complete = root }) (ending_result last)) ≡ none
    → AcceptsFrom fs root [] × (last ≡ at_eof)
unfolding round
end-Accepts fs root at_failure e = absurd cc
end-Accepts [] true at_eof e = (refl, refl)
end-Accepts [] false at_eof e = absurd cc
end-Accepts (f ∷ fs) root at_eof e = absurd cc

pub Round-cases :
    (r : Round) → ((s : Scan) × (r ≡ continue s)) ⊎ ((e : Option Error) × (r ≡ return e))
Round-cases (continue s) = inl (s, refl)
Round-cases (return e) = inr (e, refl)

scan-Accepts :
    (ts : List Token) (s : Scan) (last : Ending)
    → length s.frames ≤ max_nesting_depth
    → scan s ts last ≡ none
    → Accepts s ts × (last ≡ at_eof)
unfolding scan round
scan-Accepts [] s last h e = end-Accepts s.frames s.root_complete last e
scan-Accepts (t ∷ ts) s last h e = elim (Round-cases (frame_token s.frames s.root_complete t)) [
  | inr (x, p) ↦
      let q : x ≡ none = rw (p, scan, round) at e in
      absurd (frame_token-ne-nil s.frames s.root_complete t (p ∙ ap return q))
  | inl (s', p) ↦
      let (later, at) =
        scan-Accepts ts s' last (frame_token-depth s.frames s.root_complete t s' h p)
          (rw (p, scan, round) at e) in
      (frame_token-Accepts s' ts later s.frames s.root_complete t h p, at)
]

-- When the scan of a list of tokens returns nil, the decoder has ended by EOF, and the tokens are
-- those of one value (in which a last member name may stand with no value) that is nested at most `maxNestingDepth` deep and in each of whose objects the
-- names are pairwise different.
pub scan_sound :
    (ts : List Token) (last : Ending)
    → scan start ts last ≡ none
    → (last ≡ at_eof)
      × (v : Value) × (ts ≡ print v [])
      × (depth v ≤ max_nesting_depth)
      × (has_unique_names v ≡ true)
scan_sound ts last e =
    let ((v, h, p), at) = scan-Accepts ts start last (omega arith) e in
    (at, v, p, omega arith, unique v (omega arith) (rw (at, p) at e))
  where
    unique :
        (v : Value)
        → depth v ≤ max_nesting_depth
        → scan start (print v []) at_eof ≡ none
        → has_unique_names v ≡ true
    unique v h q = elim (Bool-cases (has_unique_names v)) [
      | inl good ↦ good
      | inr bad ↦ absurd (let g = rw bad at (sym (scan-value v h) ∙ q) in cc)
    ]
