-- ===== src/Proxy/Origin/Flights.antt =====
-- The flights of proxy/origin.go: who asks the origin, and what the others receive.
use cdn_edge.Common.{
  ℕ, ◌<◌, ◌≡◌, refl, ap, sym, ◌∙◌, arith, true, false, Bool-cases, Option-cases, inl, inr, [], ◌∷◌,
  ◌++◌, List, if◌then◌else◌, none, some, Text, length, get_or-set_self, length-append,
  text_discrete,
}
use cdn_edge.Common.Int.{ℤ}
use cdn_edge.Common.Http.{Fields}
use cdn_edge.Common.Assoc.{insert, lookup-insert_self}
use cdn_edge.Proxy.Circuit.{allow}
use cdn_edge.Proxy.Origin.{
  Origin, OriginRequest, Result, circuit_open, joins, leads, begin, finish, joined, fetch,
  new_flight, err_circuit_open, build_request,
}
use mathlib.Core.List.{lookup}

-- The state in which a call asks the origin.
abbrev departed : ℤ → Text → Origin → Origin
departed now cache_key o = record o {
  cb = (allow now o.cb).0;
  flights = insert text_discrete cache_key (length o.landed) o.flights;
  landed = o.landed ++ new_flight ∷ [];
}

begin-refused :
    (now : ℤ) (cache_key : Text) (o : Origin)
    → (allow now o.cb).1 ≡ false
    → begin now cache_key o ≡ (record o { cb = (allow now o.cb).0 }, circuit_open)
unfolding begin
begin-refused now cache_key o h = rw (h, begin) refl

begin-joined :
    (now : ℤ) (cache_key : Text) (a : ℕ) (o : Origin)
    → (allow now o.cb).1 ≡ true
    → lookup text_discrete cache_key o.flights ≡ some a
    → begin now cache_key o ≡ (record o { cb = (allow now o.cb).0 }, joins a)
unfolding begin
begin-joined now cache_key a o h e = rw (h, e, begin) refl

begin-departed :
    (now : ℤ) (cache_key : Text) (o : Origin)
    → (allow now o.cb).1 ≡ true
    → lookup text_discrete cache_key o.flights ≡ none
    → begin now cache_key o ≡ (departed now cache_key o, leads (length o.landed))
unfolding begin
begin-departed now cache_key o h e = rw (h, e, begin) refl

leads-departed :
    (now : ℤ) (cache_key : Text) (a : ℕ) (o : Origin)
    → (begin now cache_key o).1 ≡ leads a
    → ((begin now cache_key o).0 ≡ departed now cache_key o) × (a ≡ length o.landed)
leads-departed now cache_key a o h = elim (Bool-cases (allow now o.cb).1) [
  | inr f ↦ let e = ap (λ x. x.1) (begin-refused now cache_key o f) in absurd (cc)
  | inl f ↦ elim (Option-cases (lookup text_discrete cache_key o.flights)) [
    | inr (b, g) ↦ let e = ap (λ x. x.1) (begin-joined now cache_key b o f g) in absurd (cc)
    | inl g ↦
        let e = begin-departed now cache_key o f g in
        let q : leads a ≡ leads (length o.landed) = sym h ∙ ap (λ x. x.1) e in (ap (λ x. x.0) e, cc)
  ]
]

-- With the circuit open, no request goes out: the result is the error, whatever the client would
-- do.
pub fetch-circuit_open :
    (client : OriginRequest → Result) (now later : ℤ) (awaited : Result) (cache_key url : Text)
    (req_header : Fields) (o : Origin)
    → (allow now o.cb).1 ≡ false
    → (fetch client now later awaited cache_key url req_header o).1 ≡ err_circuit_open
unfolding fetch
fetch-circuit_open client now later awaited cache_key url req o h =
    rw (begin-refused now cache_key o h, fetch) refl

-- The one that asks the origin, and one that joins it: the second receives what the first got.
pub joined-finish :
    (now later : ℤ) (cache_key : Text) (a : ℕ) (result : Result) (o : Origin)
    → (begin now cache_key o).1 ≡ leads a
    → joined a (finish later cache_key a result (begin now cache_key o).0) ≡ some result
unfolding finish joined
joined-finish now later cache_key a result o h =
    let (e, q) = leads-departed now cache_key a o h in
    let lt : a < length (o.landed ++ new_flight ∷ []) =
      omega (arith, length-append o.landed (new_flight ∷ [])) in
    rw
      (
        e,
        get_or-set_self (o.landed ++ new_flight ∷ []) a (record { done = true; result = result })
            new_flight lt,
      )
      refl

-- While a flight of its key is under way, no second request goes out.
pub begin-joins :
    (now later : ℤ) (cache_key : Text) (a : ℕ) (o : Origin)
    → (begin now cache_key o).1 ≡ leads a
    → (allow later (begin now cache_key o).0.cb).1 ≡ true
    → (begin later cache_key (begin now cache_key o).0).1 ≡ joins a
begin-joins now later cache_key a o h allowed =
    let (e, q) = leads-departed now cache_key a o h in
    let l : lookup text_discrete cache_key (begin now cache_key o).0.flights ≡ some a =
      rw (e, q) (lookup-insert_self text_discrete cache_key (length o.landed) o.flights) in
    ap (λ x. x.1) (begin-joined later cache_key a (begin now cache_key o).0 allowed l)

-- The requests that have gone out, with one more if the circuit lets a fetch through and no flight
-- of its key is under way.
abbrev pub sent_after : ℤ → Text → Text → Fields → Origin → List OriginRequest
sent_after now cache_key url req_header o =
    if (allow now o.cb).1
    then (elim (lookup text_discrete cache_key o.flights) [
      | some a ↦ o.sent
      | none ↦ o.sent ++ build_request o.host_override url req_header ∷ []
    ])
    else o.sent

-- A fetch that finds a flight of its key sends nothing, and returns what the flight gives.
pub fetch-joined :
    (client : OriginRequest → Result) (now later : ℤ) (awaited : Result) (cache_key url : Text)
    (req_header : Fields) (o : Origin) (a : ℕ)
    → (allow now o.cb).1 ≡ true
    → lookup text_discrete cache_key o.flights ≡ some a
    → fetch client now later awaited cache_key url req_header o
      ≡ (record o { cb = (allow now o.cb).0 }, awaited)
unfolding fetch
fetch-joined client now later awaited cache_key url req o a h e =
    let j = begin-joined now cache_key a o h e in rw (j, fetch) (rw j refl)
