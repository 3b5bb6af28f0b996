-- ===== src/Process/Sinks.antt =====
-- process/process.go: `WriterSink` and `Scrollback`. A writer is the bytes that it has been given,
-- and `none` a nil writer; `Write` never fails here, as the sink ignores what it returns.
mod Tests
use go_toolbelt.Base.{
  ℕ, zero, suc, ◌+◌, ◌-◌, ◌≤◌, ◌≡◌, refl, sym, ap, ◌∙◌, Bool, true, false, not, ◌||◌, ◌==◌, leb,
  List, [], ◌∷◌, ◌++◌, Option, some, none, length, drop, length-append, length-drop, append_assoc,
  append-nil, if◌then◌else◌, arith,
}
use go_toolbelt.Process.Events.{Event, EventType, chunk, Stream, stdout, stderr}

abbrev pub is_chunk : EventType → Bool
is_chunk chunk = true
is_chunk _ = false

abbrev is_stdout : Stream → Bool
is_stdout stdout = true
is_stdout stderr = false

pub record WriterSink : Type 0 where
  pub out : Option (List ℕ)
  pub err : Option (List ℕ)
  pub merged : Option (List ℕ)

abbrev pub write : Option (List ℕ) → List ℕ → Option (List ℕ)
write none bytes = none
write (some w) bytes = some (w ++ bytes)

pub write_event : WriterSink → Event → WriterSink
write_event s e =
    if not (is_chunk e.type)
    then s
    else if is_stdout e.stream
    then record s { merged = write s.merged e.bytes; out = write s.out e.bytes }
    else record s { merged = write s.merged e.bytes; err = write s.err e.bytes }

pub write_events : WriterSink → List Event → WriterSink
unfolding write_event
write_events s [] = s
write_events s (e ∷ es) = write_events (write_event s e) es

-- The bytes of the chunks that a test selects, in order.
pub chunks_of : (Stream → Bool) → List Event → List ℕ
chunks_of select [] = []
chunks_of select (e ∷ es) =
    let rest = chunks_of select es in
    if not (is_chunk e.type) then rest else if select e.stream then e.bytes ++ rest else rest

abbrev pub any_stream : Stream → Bool
any_stream s = true

abbrev pub only_stdout : Stream → Bool
only_stdout s = is_stdout s

abbrev pub only_stderr : Stream → Bool
only_stderr s = not (is_stdout s)

write-append : (w : Option (List ℕ)) (a b : List ℕ) → write (write w a) b ≡ write w (a ++ b)
write-append none a b = refl
write-append (some w) a b = ap some (append_assoc w a b)

write-nil : (w : Option (List ℕ)) → write w [] ≡ w
write-nil none = refl
write-nil (some w) = ap some (append-nil w)

-- Whatever the events, the sink's writers are given the bytes of the chunks, in order and once:
-- the merged writer those of both streams, each of the others those of its own.
write_events-chunks :
    (s : WriterSink) (es : List Event)
    → ((write_events s es).merged ≡ write s.merged (chunks_of any_stream es))
      × ((write_events s es).out ≡ write s.out (chunks_of only_stdout es))
      × ((write_events s es).err ≡ write s.err (chunks_of only_stderr es))
unfolding write_events write_event chunks_of
write_events-chunks s [] = (sym (write-nil s.merged), sym (write-nil s.out), sym (write-nil s.err))
write_events-chunks s (e ∷ es) = ground (
  arith,
  write_events-chunks (write_event s e) es,
  write-append s.merged e.bytes (chunks_of any_stream es),
  write-append s.out e.bytes (chunks_of only_stdout es),
  write-append s.err e.bytes (chunks_of only_stderr es),
)

-- A limit that is not positive is 0 here.
pub record Scrollback : Type 0 where
  pub limit : ℕ
  pub buf : List ℕ

abbrev pub new_scrollback : ℕ → Scrollback
new_scrollback limit = record { limit = limit; buf = [] }

pub handle : Scrollback → Event → Scrollback
handle s e =
    let buf = s.buf ++ e.bytes in
    if s.limit == 0 || not (is_chunk e.type) || length e.bytes == 0
    then s
    else if leb (length buf) s.limit
    then record s { buf = buf }
    else record s { buf = drop (length buf - s.limit) buf }

-- `String`; a nil scrollback is empty.
pub contents : Option Scrollback → List ℕ
contents none = []
contents (some s) = s.buf

pub handle_all : Scrollback → List Event → Scrollback
unfolding handle
handle_all s [] = s
handle_all s (e ∷ es) = handle_all (handle s e) es

-- The last bytes of a text.
abbrev pub keep : ℕ → List ℕ → List ℕ
keep n xs = drop (length xs - n) xs

drop-append : (m : ℕ) (xs ys : List ℕ) → m ≤ length xs → drop m (xs ++ ys) ≡ drop m xs ++ ys
drop-append zero xs ys h = refl
drop-append (suc m) [] ys h = absurd (omega arith)
drop-append (suc m) (x ∷ xs) ys h = drop-append m xs ys (omega arith)

drop-nil : (n : ℕ) → [] ≡ drop {A = ℕ} n []
drop-nil zero = refl
drop-nil (suc n) = refl

drop-drop : (m k : ℕ) (xs : List ℕ) → drop m (drop k xs) ≡ drop (k + m) xs
drop-drop m zero xs = let e : m ≡ zero + m = omega arith in ap (λ n. drop n xs) e
drop-drop zero (suc k) [] = drop-nil (suc k + zero)
drop-drop (suc m) (suc k) [] = drop-nil (suc k + suc m)
drop-drop m (suc k) (x ∷ xs) =
    let e : suc (k + m) ≡ suc k + m = omega arith in drop-drop m k xs ∙ ap (λ n. drop n (x ∷ xs)) e

keep-length : (n : ℕ) (xs : List ℕ) → length (keep n xs) ≤ n
keep-length n xs = omega (arith, length-drop (length xs - n) xs)

keep-short : (n : ℕ) (xs : List ℕ) → length xs ≤ n → keep n xs ≡ xs
keep-short n xs h = let e : length xs - n ≡ 0 = omega arith in ap (λ k. drop k xs) e

-- What has been cut off before does not matter to what is kept.
keep-append : (n : ℕ) (a b : List ℕ) → keep n (keep n a ++ b) ≡ keep n (a ++ b)
keep-append n a b =
    let k = length a - n in
    let joined : keep n a ++ b ≡ drop k (a ++ b) = sym (drop-append k a b (omega arith)) in
    let e : k + (length (drop k (a ++ b)) - n) ≡ length (a ++ b) - n =
      omega (arith, length-drop k (a ++ b), length-append a b) in
    ap (keep n) joined
    ∙ drop-drop (length (drop k (a ++ b)) - n) k (a ++ b)
    ∙ ap (λ m. drop m (a ++ b)) e

nil_of_length : (xs : List ℕ) → length xs ≡ 0 → xs ≡ []
nil_of_length [] h = refl
nil_of_length (x ∷ xs) h = absurd (omega arith)

abbrev chunk_bytes : Event → List ℕ
chunk_bytes e = if not (is_chunk e.type) then [] else e.bytes

handle-keep :
    (s : Scrollback) (e : Event)
    → length s.buf ≤ s.limit
    → ((handle s e).limit ≡ s.limit) × ((handle s e).buf ≡ keep s.limit (s.buf ++ chunk_bytes e))
unfolding handle
handle-keep s e h = ground (
  arith,
  keep-short s.limit (s.buf ++ chunk_bytes e),
  append-nil s.buf,
  nil_of_length e.bytes,
  nil_of_length (keep 0 (s.buf ++ chunk_bytes e)),
  nil_of_length s.buf,
  keep-length 0 (s.buf ++ chunk_bytes e),
)

chunks_of-cons :
    (e : Event) (es : List Event)
    → chunks_of any_stream (e ∷ es) ≡ chunk_bytes e ++ chunks_of any_stream es
unfolding chunks_of
chunks_of-cons e es = ground arith

handle_all-keep :
    (s : Scrollback) (es : List Event)
    → length s.buf ≤ s.limit
    → (handle_all s es).buf ≡ keep s.limit (s.buf ++ chunks_of any_stream es)
unfolding handle_all chunks_of
handle_all-keep s [] h = sym (ap (keep s.limit) (append-nil s.buf) ∙ keep-short s.limit s.buf h)
handle_all-keep s (e ∷ es) h =
    let (same, kept) = handle-keep s e h in
    let rest = chunks_of any_stream es in
    let short : length (handle s e).buf ≤ (handle s e).limit =
      omega (arith, keep-length s.limit (s.buf ++ chunk_bytes e), ap length kept, same) in
    handle_all-keep (handle s e) es short
    ∙ (λ i. keep (same i) (kept i ++ rest))
    ∙ keep-append s.limit (s.buf ++ chunk_bytes e) rest
    ∙ ap (keep s.limit)
        (append_assoc s.buf (chunk_bytes e) rest ∙ ap (◌++◌ s.buf) (sym (chunks_of-cons e es)))

-- A new scrollback that has handled any events holds the last bytes of all their chunks, up to its
-- limit.
pub scrollback_keeps_tail :
    (limit : ℕ) (es : List Event)
    → (handle_all (new_scrollback limit) es).buf ≡ keep limit (chunks_of any_stream es)
scrollback_keeps_tail limit es = handle_all-keep (new_scrollback limit) es (omega arith)
