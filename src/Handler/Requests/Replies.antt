-- ===== src/Handler/Requests/Replies.antt =====
-- How requests to the handler of handler/handler.go end.
use cdn_edge.Common.{
  refl, ℕ, ◌≡◌, Bool, true, false, Option-cases, inl, inr, none, some, Text, length, if◌then◌else◌,
}
use cdn_edge.Common.Http.{Fields}
use cdn_edge.Cache.Headers.{Codec}
use cdn_edge.Cache.Entry.{Entry}
use cdn_edge.Cache.Stampede.{locked}
use cdn_edge.Proxy.Origin.{Response, Result, response, error}
use cdn_edge.Handler.Range.{parse_range}
use cdn_edge.Handler.Range.Bounds.{serve_range-parse_range}
use cdn_edge.Handler.Writer.{Ending, serve_range_reply, is_sendable, miss_word}
use cdn_edge.Handler.Writer.Endings.{Answered, sent, serve_entry-Answered}
use cdn_edge.Handler.Cdn.{Cdn, World}
use cdn_edge.Handler.Requests.{serve_part}

abbrev pub Replies : {S : Type 0} → S × Ending → Type 0
Replies x = Answered x.1

pub if-Replies :
    {S : Type 0} (b : Bool) (x y : S × Ending)
    → Replies x
    → Replies y
    → Replies (if b then x else y)
if-Replies true x y p q = p
if-Replies false x y p q = q

pub result-Replies :
    {S : Type 0} (x : Result) (f : Text → S × Ending) (g : Response → S × Ending)
    → ((e : Text) → Replies (f e))
    → ((resp : Response) → Replies (g resp))
    → Replies {S = S} (elim x [ error e ↦ f e | response resp ↦ g resp ])
result-Replies (error e) f g p q = p e
result-Replies (response resp) f g p q = q resp

pub range_reply :
    (codec : Codec) (h : Fields) (e : Entry) (range_header : Text) (start end : ℕ)
    → parse_range range_header (length e.body) ≡ some (start, end)
    → Answered (serve_range_reply codec h e start end)
unfolding serve_range_reply is_sendable
range_reply codec h e range_header start end p =
    let (_, _, (slice, s, _)) = serve_range-parse_range range_header e.body start end p in
    rw (s, serve_range_reply) (sent _ refl)

pub serve_part-Answered :
    (w : World) (h : Fields) (range_header : Text) (e : Entry)
    → Answered (serve_part w h range_header e)
unfolding serve_part
serve_part-Answered w h range_header e =
    elim (Option-cases (parse_range range_header (length e.body))) [
      | inl n ↦ rw (n, serve_part) (serve_entry-Answered w.platform.codec w.later h e miss_word)
      | inr ((s, t), p) ↦ rw (p, serve_part) (range_reply w.platform.codec h e range_header s t p)
    ]

-- A lookup and a question to the predictor leave the stampede lock alone.
abbrev Free : Text → Cdn → Type 0
Free key cdn = locked key cdn.stampede ≡ none
