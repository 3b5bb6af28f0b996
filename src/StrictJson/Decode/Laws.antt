-- ===== src/StrictJson/Decode/Laws.antt =====
-- strictjson/strictjson.go: what `Decode`, `DecodeReader` and `sanitizeDecodeError` guarantee.
use mathlib.Core.List.{cons-ne-nil}
use mathlib.Core.Option
use Prim.Native.Char.{code}
use go_toolbelt.Base.{
  ℕ, zero, suc, ◌<◌, ◌≤◌, ◌≡◌, ◌≢◌, refl, sym, ap, subst, ◌∙◌, true, String, List, [], ◌∷◌, ◌++◌,
  Option, some, none, arith, length, inl, inr, if◌then◌else◌, ◌==◌, leb, Bool-cases, Option-cases,
  append-nil, length-append,
}
use go_toolbelt.StrictJson.{Error, too_large, max_nesting_depth, at_eof, scan, start}
use go_toolbelt.StrictJson.Grammar.{Value, print, depth, has_unique_names}
use go_toolbelt.StrictJson.Stream.{Decoder, validate, validate-scan, validate_sound, tokens_of}
use go_toolbelt.StrictJson.Decode.{
  TypeError, JsonError, structural, rejected_type, DecodeOptions, OptionFn, apply_options,
  cut_space, redact, sanitize_decode_error, TypedDecoder, end_of_file, Reader, Outcome,
  decode_validated, decode, extra_byte, ReadError, after_read, decode_reader,
}

abbrev pub HasNoSpace : String → Type 0
HasNoSpace String.[] = Unit
HasNoSpace (String.◌∷◌ c s) = (code c ≢ b' ') × HasNoSpace s

cut_space-HasNoSpace : (s : String) → HasNoSpace (cut_space s)
unfolding cut_space
cut_space-HasNoSpace String.[] = tt
cut_space-HasNoSpace (String.◌∷◌ c s) = elim (Bool-cases (code c == b' ')) [
  | inl space ↦ rw space tt
  | inr other ↦ rw other (ground arith, cut_space-HasNoSpace s)
]

module _ (d : Decoder) (j : TypedDecoder) where
  open j use {Target, unmarshal}

  decode-total :
      (bytes : List ℕ) (dst : Target) (opts : DecodeOptions)
      → decode d j bytes dst opts
        ≡ some (
            decode_validated d j bytes dst opts
              (scan start (tokens_of d bytes).0 (tokens_of d bytes).1))
  unfolding decode
  decode-total bytes dst opts =
      ap (Option.map (decode_validated d j bytes dst opts)) (validate-scan d bytes)

  decode-accepted :
      (bytes : List ℕ) (dst : Target) (opts : DecodeOptions) (t : Option Target)
      → decode d j bytes dst opts ≡ some (none, t)
      → validate d bytes ≡ some none
  unfolding decode decode_validated
  decode-accepted bytes dst opts t e = elim (Option-cases (validate d bytes)) [
    | inl p ↦ absurd (let g = rw p at e in cc)
    | inr (none, p) ↦ p
    | inr (some x, p) ↦ absurd (let g = rw p at e in cc)
  ]

  decode-refused :
      (bytes : List ℕ) (dst : Target) (opts : DecodeOptions) (e : Error)
      → validate d bytes ≡ some (some e)
      → decode d j bytes dst opts ≡ some (some (structural e), some dst)
  unfolding decode decode_validated
  decode-refused bytes dst opts e p = rw p

  -- `decode` always returns. When it returns no error, the decoder has delivered the tokens of one
  -- value (in which a last member name may stand with no value) and EOF, the value is nested at most
  -- `maxNestingDepth` deep, and in each of its objects the names are pairwise different. When
  -- `Validate` returns an error, that is the error, and the destination is as it was.
  pub decode_strict :
      (bytes : List ℕ) (dst : Target) (opts : DecodeOptions)
      → (r : Outcome Target) × (decode d j bytes dst opts ≡ some r)
        × (r.0 ≡ none
            → ((tokens_of d bytes).1 ≡ at_eof)
              × (v : Value) × ((tokens_of d bytes).0 ≡ print v [])
              × (depth v ≤ max_nesting_depth)
              × (has_unique_names v ≡ true))
        × ((e : Error) → validate d bytes ≡ some (some e) → r ≡ (some (structural e), some dst))
  decode_strict bytes dst opts =
      let r =
        decode_validated d j bytes dst opts
          (scan start (tokens_of d bytes).0 (tokens_of d bytes).1) in
      let returns : decode d j bytes dst opts ≡ some r = decode-total bytes dst opts in
      (
        r,
        returns,
        (λ p.
            validate_sound d bytes
              (decode-accepted bytes dst opts r.1 (returns ∙ (λ i. some (p i, r.1))))),
        λ e q. cc (decode-refused bytes dst opts e q, returns),
      )

-- A reader that holds `content`, and never fails: `io.ReadAll` of a limited reader gives the content
-- up to the limit, and one `Read` gives the next byte, or EOF where none is left.
pub record IsReliable (r : Reader) (content : r.State → List ℕ) : Type 0 where
  pub no_error : (s : r.State) (n : ℕ) → (r.read_all s n).error ≡ none
  pub splits :
      (s : r.State) (n : ℕ) → (r.read_all s n).bytes ++ content (r.read_all s n).next ≡ content s
  pub stops_at_limit :
      (s : r.State) (n : ℕ) → (r.read_all s n).remaining ≢ 0 → content (r.read_all s n).next ≡ []
  pub at_end : (s : r.State) → content s ≡ [] → r.read_byte s ≡ (0, some end_of_file)
  pub before_end : (s : r.State) → content s ≢ [] → (r.read_byte s).0 ≡ 1

length-pos : (xs : List ℕ) → xs ≢ [] → 0 < length xs
length-pos [] h = absurd (h refl)
length-pos (x ∷ xs) h = omega arith

module _ (d : Decoder) (j : TypedDecoder) (r : Reader) (content : r.State → List ℕ)
    (ok : IsReliable r content) where
  open j use {Target}

  -- What is read, by what is left behind it.
  after_read-fits :
      (s : r.State) (n : ℕ) (dst : Target) (opts : DecodeOptions)
      → content (r.read_all s n).next ≡ []
      → (length (content s) ≤ n)
        × (after_read d j r (r.read_all s n) dst opts ≡ decode d j (content s) dst opts)
  unfolding after_read
  after_read-fits s n dst opts e =
      let read = r.read_all s n in
      let same : read.bytes ≡ content s =
        sym (append-nil read.bytes) ∙ ap (◌++◌ read.bytes) (sym e) ∙ ok.splits s n in
      (
        omega (arith, r.read_all-length s n, ap length same),
        ground (arith, ok.no_error s n, ok.at_end read.next e, same),
      )

  after_read-exceeds :
      (s : r.State) (n : ℕ) (dst : Target) (opts : DecodeOptions)
      → content (r.read_all s n).next ≢ []
      → (n < length (content s))
        × (after_read d j r (r.read_all s n) dst opts
            ≡ some (some (structural too_large), some dst))
  unfolding after_read
  after_read-exceeds s n dst opts h =
      let read = r.read_all s n in
      let full : read.remaining ≡ 0 = ground (arith, ok.stops_at_limit s n) in
      let more : 0 < length (content read.next) = length-pos (content read.next) h in
      (
        omega (
          arith,
          r.read_all-length s n,
          ap length (ok.splits s n),
          length-append read.bytes (content read.next),
        ),
        ground (arith, ok.no_error s n, ok.before_end read.next h, full),
      )

  -- For a reader that never fails, `DecodeReader` with a positive limit is `decode` of all that the
  -- reader holds, or `ErrTooLarge` with the destination as it was where that exceeds the limit.
  pub decode_reader_whole :
      (s : r.State) (n : ℕ) (dst : Target) (fns : List OptionFn) (opts : DecodeOptions)
      → 0 < n
      → apply_options fns ≡ some opts
      → decode_reader d j r (some s) n (some dst) fns ≡ (
          if leb (length (content s)) n
          then decode d j (content s) dst opts
          else some (some (structural too_large), some dst))
  unfolding decode_reader
  decode_reader_whole s zero dst fns opts h p = absurd (omega arith)
  decode_reader_whole s (suc n) dst fns opts h p =
      rw (p, decode_reader) (whole (content (r.read_all s (suc n)).next) refl)
    where
      whole :
          (rest : List ℕ)
          → content (r.read_all s (suc n)).next ≡ rest
          → after_read d j r (r.read_all s (suc n)) dst opts ≡ (
              if leb (length (content s)) (suc n)
              then decode d j (content s) dst opts
              else some (some (structural too_large), some dst))
      whole [] e = ground (arith, after_read-fits s (suc n) dst opts e)
      whole (x ∷ xs) e =
          ground (arith, after_read-exceeds s (suc n) dst opts (λ q. cons-ne-nil x xs (sym e ∙ q)))

-- A reader that holds `content`, and may fail at any call: what it gives is the next of the content,
-- `io.ReadAll` of a limited reader stops below its limit only where the content ends, unless it
-- returns an error, and a `Read` that gives nothing and EOF is at the end of the content.
pub record IsFaithful (r : Reader) (content : r.State → List ℕ) : Type 0 where
  pub splits :
      (s : r.State) (n : ℕ) → (r.read_all s n).bytes ++ content (r.read_all s n).next ≡ content s
  pub stops_at_limit :
      (s : r.State) (n : ℕ)
      → (r.read_all s n).error ≡ none
      → (r.read_all s n).remaining ≢ 0
      → content (r.read_all s n).next ≡ []
  pub ends : (s : r.State) → r.read_byte s ≡ (0, some end_of_file) → content s ≡ []

extra_byte-end :
    (d : Decoder) (j : TypedDecoder) (r : Reader) (p : ℕ × Option ReadError)
    → extra_byte d j r p ≡ none
    → p ≡ (0, some end_of_file)
unfolding extra_byte
extra_byte-end d j r (n, e) h = ground arith

module _ (d : Decoder) (j : TypedDecoder) (r : Reader) (content : r.State → List ℕ)
    (ok : IsFaithful r content) where
  open j use {Target}

  -- Nothing is left behind what was read.
  after_read-drains :
      (s : r.State) (n : ℕ) (dst : Target) (opts : DecodeOptions) (t : Option Target)
      → after_read d j r (r.read_all s n) dst opts ≡ some (none, t)
      → (content (r.read_all s n).next ≡ [])
        × (decode d j (r.read_all s n).bytes dst opts ≡ some (none, t))
  unfolding after_read
  after_read-drains s n dst opts t h =
      let read = r.read_all s n in
      elim (Option-cases read.error) [
        | inl p ↦ elim (Bool-cases (read.remaining == 0)) [
          | inl full ↦ elim (Option-cases (extra_byte d j r (r.read_byte read.next))) [
            | inl q ↦
                let end = ok.ends read.next (extra_byte-end d j r (r.read_byte read.next) q) in
                (end, let g = rw (p, after_read, full, q) at h in g)
            | inr (x, q) ↦ absurd (let g = rw (p, after_read, full, q) at h in cc)
          ]
          | inr left ↦
              (ok.stops_at_limit s n p (ground arith), let g = rw (p, after_read, left) at h in g)
        ]
        | inr (e, p) ↦ absurd (let g = rw (p, after_read) at h in cc)
      ]

  after_read-whole :
      (s : r.State) (n : ℕ) (dst : Target) (opts : DecodeOptions) (t : Option Target)
      → after_read d j r (r.read_all s n) dst opts ≡ some (none, t)
      → (length (content s) ≤ n) × (decode d j (content s) dst opts ≡ some (none, t))
  after_read-whole s n dst opts t h =
      let read = r.read_all s n in
      let (e, accepted) = after_read-drains s n dst opts t h in
      let same : read.bytes ≡ content s =
        sym (append-nil read.bytes) ∙ ap (◌++◌ read.bytes) (sym e) ∙ ok.splits s n in
      (
        omega (arith, r.read_all-length s n, ap length same),
        subst (λ bytes. decode d j bytes dst opts ≡ some (none, t)) same accepted,
      )

  -- A result with no error is one that `decode` gives for all that the reader holds, which is at most
  -- `maxBytes` bytes: whatever calls of the reader may fail, nothing is cut off and nothing is left. The
  -- reader, the destination and the options were there.
  pub decode_reader_bounded :
      (s : Option r.State) (limit : ℕ) (dst : Option Target) (fns : List OptionFn)
      (t : Option Target)
      → decode_reader d j r s limit dst fns ≡ some (none, t)
      → (s₀ : r.State) × (dst₀ : Target) × (opts : DecodeOptions) × (s ≡ some s₀)
        × (dst ≡ some dst₀)
        × (apply_options fns ≡ some opts)
        × (length (content s₀) ≤ limit)
        × (decode d j (content s₀) dst₀ opts ≡ some (none, t))
  unfolding decode_reader
  decode_reader_bounded none limit dst fns t e = absurd cc
  decode_reader_bounded (some s) zero dst fns t e = absurd cc
  decode_reader_bounded (some s) (suc n) none fns t e = absurd cc
  decode_reader_bounded (some s) (suc n) (some dst) fns t e =
      elim (Option-cases (apply_options fns)) [
        | inl p ↦ absurd (let g = rw (p, decode_reader) at e in cc)
        | inr (opts, p) ↦
            let g = after_read-whole s (suc n) dst opts t (rw (p, decode_reader) at e) in
            (s, dst, opts, refl, refl, p, g.0, g.1)
      ]

-- The error that stands for one of a wrong type names no struct and no field, and the value in it
-- ends before the first space.
sanitize_redacts :
    (err : JsonError) (e : TypeError)
    → sanitize_decode_error err ≡ rejected_type e
    → (e.struct_name ≡ "") × (e.field ≡ "") × HasNoSpace e.value
unfolding sanitize_decode_error
sanitize_redacts err e h = elim (Option-cases err.type_error) [
  | inl p ↦ absurd (ground arith)
  | inr (e', p) ↦
      let q : redact e' ≡ e = ground arith in
      subst (λ x. (x.struct_name ≡ "") × (x.field ≡ "") × HasNoSpace x.value) q
        (refl, refl, cut_space-HasNoSpace e'.value)
]
