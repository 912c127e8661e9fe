-- ===== src/Cache/Streaming/Delivery.antt =====
-- A writer and a reader of an entry of cache/streaming.go, interleaved in any order.
use cdn_edge.Common.{
  ℕ, ◌≤◌, ◌≡◌, refl, ap, sym, ◌∙◌, arith, Bool, true, false, Bool-cases, Option-cases, inl, inr,
  List, [], ◌∷◌, ◌++◌, Option, none, some, Text, length, take, drop, subst, length-take,
  length-drop, length-append, take-append-drop, ltb,
}
use cdn_edge.Common.Slices.{take-append, take_add, take_all, take-length-take}
use mathlib.Core.List.{append-nil, append_assoc}
use cdn_edge.Cache.Headers.{Header}
use cdn_edge.Cache.Streaming.{
  StreamingEntry, new_streaming_entry, write, close, ReadResult, blocks, bytes, end_of_file,
  aborted, read,
}

pub data Event : Type 0 where
  writes : Text → Event
  closes : Option Text → Event
  reads : ℕ → Event

-- A reader at its offset, and the bytes that it got.
pub record Stream : Type 0 where
  pub entry : StreamingEntry
  pub offset : ℕ
  pub received : Text

abbrev pub received_of : ReadResult → Text
received_of (bytes p) = p
received_of _ = []

unfoldable pub step : Event → Stream → Stream
step (writes p) s = record s { entry = (write p s.entry).0 }
step (closes e) s = record s { entry = close e s.entry }
step (reads size) s =
    let (r, offset) = read size s.offset s.entry in
    record s { offset = offset; received = s.received ++ received_of r }

unfoldable pub run : List Event → Stream → Stream
unfolding step
run [] s = s
run (e ∷ es) s = run es (step e s)

abbrev pub opened : Header → ℕ → Stream
opened header status = record {
  entry = new_streaming_entry header status;
  offset = 0;
  received = [];
}

-- What the writer wrote before the close: an independent account of the events.
abbrev pub body_of : List Event → Text
body_of [] = []
body_of (writes p ∷ es) = p ++ body_of es
body_of (closes e ∷ es) = []
body_of (reads n ∷ es) = body_of es

-- The error of the first close.
abbrev pub error_of : List Event → Option Text
error_of [] = none
error_of (writes p ∷ es) = error_of es
error_of (closes e ∷ es) = e
error_of (reads n ∷ es) = error_of es

abbrev pub closed_of : List Event → Bool
closed_of [] = false
closed_of (closes e ∷ es) = true
closed_of (_ ∷ es) = closed_of es

abbrev pub InStep : Stream → Type 0
InStep s = (s.received ≡ take s.offset s.entry.buf) × (s.offset ≤ length s.entry.buf)

write-InStep : (p : Text) (s : Stream) → InStep s → InStep (step (writes p) s)
unfolding step write
write-InStep p s (e, b) = elim (Bool-cases s.entry.complete) [
  | inl c ↦ rw c (e, b)
  | inr c ↦
      rw c
        (e ∙ sym (take-append s.offset s.entry.buf p b), omega (arith, length-append s.entry.buf p))
]

close-InStep : (x : Option Text) (s : Stream) → InStep s → InStep (step (closes x) s)
unfolding step close
close-InStep x s (e, b) = elim (Bool-cases s.entry.complete) [
  | inl c ↦ rw c (e, b)
  | inr c ↦ rw c (e, b)
]

-- What a read adds, in terms of the buffer.
read-piece :
    (n o : ℕ) (se : StreamingEntry)
    → o ≤ length se.buf
    → (take o se.buf ++ received_of (read n o se).0 ≡ take (read n o se).1 se.buf)
      × ((read n o se).1 ≤ length se.buf)
unfolding read
read-piece n o se b = elim (Bool-cases (ltb o (length se.buf))) [
  | inl h ↦
      let piece : Text = take n (drop o se.buf) in
      rw (h, read)
        (
          ap (λ t. take o se.buf ++ t) (sym (take-length-take n (drop o se.buf)))
              ∙ sym (take_add o (length piece) se.buf),
          omega (arith, length-take n (drop o se.buf), length-drop o se.buf),
        )
  | inr h ↦
      rw (h, read)
        (elim (Bool-cases se.complete) [
          | inr c ↦ rw c (append-nil _, b)
          | inl c ↦ rw c (elim (Option-cases se.err) [
            | inl f ↦ rw f (append-nil _, b)
            | inr (x, f) ↦ rw f (append-nil _, b)
          ])
        ])
]

read-InStep : (n : ℕ) (s : Stream) → InStep s → InStep (step (reads n) s)
unfolding step
read-InStep n s (e, b) =
    let (p, q) = read-piece n s.offset s.entry b in
    (ap (λ t. t ++ received_of (read n s.offset s.entry).0) e ∙ p, q)

run-InStep : (es : List Event) (s : Stream) → InStep s → InStep (run es s)
unfolding run
run-InStep [] s i = i
run-InStep (writes p ∷ es) s i = run-InStep es (step (writes p) s) (write-InStep p s i)
run-InStep (closes e ∷ es) s i = run-InStep es (step (closes e) s) (close-InStep e s i)
run-InStep (reads n ∷ es) s i = run-InStep es (step (reads n) s) (read-InStep n s i)

-- Whatever the order of writes, closes and reads, a reader has received the first bytes of the
-- buffer, as many as its offset says.
pub received-take :
    (es : List Event) (header : Header) (status : ℕ) → InStep (run es (opened header status))
unfolding new_streaming_entry
received-take es header status = run-InStep es (opened header status) (refl, omega arith)

-- A closed entry stays as it is.
run-closed : (es : List Event) (s : Stream) → s.entry.complete ≡ true → (run es s).entry ≡ s.entry
unfolding run step write close
run-closed [] s c = refl
run-closed (writes p ∷ es) s c =
    let same_entry : (step (writes p) s).entry ≡ s.entry = rw c refl in
    run-closed es (step (writes p) s) (rw same_entry c) ∙ same_entry
run-closed (closes e ∷ es) s c =
    let same_entry : (step (closes e) s).entry ≡ s.entry = rw c refl in
    run-closed es (step (closes e) s) (rw same_entry c) ∙ same_entry
run-closed (reads n ∷ es) s c = run-closed es (step (reads n) s) c

abbrev Written : List Event → Stream → Type 0
Written es s =
    ((run es s).entry.buf ≡ s.entry.buf ++ body_of es)
    × ((run es s).entry.err ≡ error_of es)
    × ((run es s).entry.complete ≡ closed_of es)

run-Written :
    (es : List Event) (s : Stream) → s.entry.complete ≡ false → s.entry.err ≡ none → Written es s
unfolding run step write close
run-Written [] s c n = (sym (append-nil s.entry.buf), n, c)
run-Written (writes p ∷ es) s c n =
    let e : (step (writes p) s).entry ≡ record (s.entry) { buf = s.entry.buf ++ p } = rw c refl in
    let (b, x, d) = run-Written es (step (writes p) s) (rw e c) (rw e n) in
    (b ∙ rw e (append_assoc s.entry.buf p (body_of es)), x, d)
run-Written (closes x ∷ es) s c n =
    let e : (step (closes x) s).entry ≡ record (s.entry) { complete = true; err = x } = rw c refl in
    let kept = run-closed es (step (closes x) s) (rw e refl) in
    rw (kept, e) (sym (append-nil s.entry.buf), refl, refl)
run-Written (reads n ∷ es) s c x = run-Written es (step (reads n) s) c x

-- What the result of a read tells a reader that has received `got`.
abbrev pub Tells : List Event → Text → ReadResult → Type 0
Tells es got blocks = (closed_of es ≡ false) × (got ≡ body_of es)
Tells es got (bytes p) = (rest : Text) × (got ++ p ++ rest ≡ body_of es)
Tells es got end_of_file = (closed_of es ≡ true) × (error_of es ≡ none) × (got ≡ body_of es)
Tells es got (aborted e) = (closed_of es ≡ true) × (error_of es ≡ some e) × (got ≡ body_of es)

at_end : (o : ℕ) (buf : Text) → ltb o (length buf) ≡ false → take o buf ≡ buf
at_end o buf h = take_all o buf (ground arith)

reads-Tells :
    (n o : ℕ) (se : StreamingEntry) (es : List Event)
    → se.buf ≡ body_of es
    → se.err ≡ error_of es
    → se.complete ≡ closed_of es
    → Tells es (take o se.buf) (read n o se).0
unfolding read
reads-Tells n o se es b x d = elim (Bool-cases (ltb o (length se.buf))) [
  | inl h ↦
      let piece : Text = take n (drop o se.buf) in
      rw (h, read)
        (
          drop n (drop o se.buf),
          append_assoc (take o se.buf) piece (drop n (drop o se.buf))
              ∙ ap (λ t. take o se.buf ++ t) (take-append-drop n (drop o se.buf))
              ∙ take-append-drop o se.buf
              ∙ b,
        )
  | inr h ↦
      rw (h, read)
        (elim (Bool-cases se.complete) [
          | inr c ↦ rw c (sym d ∙ c, at_end o se.buf h ∙ b)
          | inl c ↦ rw c (elim (Option-cases se.err) [
            | inl f ↦ rw f (sym d ∙ c, sym x ∙ f, at_end o se.buf h ∙ b)
            | inr (y, f) ↦ rw f (sym d ∙ c, sym x ∙ f, at_end o se.buf h ∙ b)
          ])
        ])
]

-- Whatever the order of writes, closes and reads: a further read blocks only before the close and
-- once the reader has all that was written; it reports the end, or the error of the close, only
-- once the reader has the whole body, and otherwise returns the bytes that come next in it.
pub read-Tells :
    (es : List Event) (header : Header) (status n : ℕ)
    → let s = run es (opened header status) in Tells es s.received (read n s.offset s.entry).0
unfolding new_streaming_entry
read-Tells es header status n =
    let s = run es (opened header status) in
    let (b, x, d) = run-Written es (opened header status) refl refl in
    let (e, _) = received-take es header status in
    subst (λ t. Tells es t (read n s.offset s.entry).0) (sym e)
      (reads-Tells n s.offset s.entry es b x d)
