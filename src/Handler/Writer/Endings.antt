-- ===== src/Handler/Writer/Endings.antt =====
-- What `WriteHeader` makes of the replies of handler/handler.go.
use cdn_edge.Common.{ℕ, ◌≡◌, refl, true, false, Bool-cases, inl, inr, some, Text}
use cdn_edge.Common.Int.{ℤ}
use cdn_edge.Common.Http.{Fields}
use cdn_edge.Cache.Headers.{Codec}
use cdn_edge.Cache.Entry.{Entry}
use cdn_edge.Proxy.Origin.{Response}
use cdn_edge.Handler.Writer.{
  Reply, Ending, replied, refused, is_sendable, write_header, handed, http_error, not_modified,
  serve_entry, serve_response,
}

-- A run that ends with a reply, or with one whose status `WriteHeader` panics at; not with another
-- panic, and not waiting.
pub data Answered : Ending → Type 0 where
  sent : (reply : Reply) → is_sendable reply.status ≡ true → Answered (replied reply)
  declined : (reply : Reply) → is_sendable reply.status ≡ false → Answered (refused reply)

pub write_header-Answered : (reply : Reply) → Answered (write_header reply)
unfolding write_header
write_header-Answered reply = elim (Bool-cases (is_sendable reply.status)) [
  | inl e ↦ rw (e, write_header) (sent reply e)
  | inr e ↦ rw (e, write_header) (declined reply e)
]

pub handed-write_header : (reply : Reply) → handed (write_header reply) ≡ some reply
unfolding write_header
handed-write_header reply = elim (Bool-cases (is_sendable reply.status)) [
  | inl e ↦ rw (e, write_header) refl
  | inr e ↦ rw (e, write_header) refl
]

pub serve_entry-Answered :
    (codec : Codec) (now : ℤ) (h : Fields) (e : Entry) (status : Text)
    → Answered (serve_entry codec now h e status)
unfolding serve_entry
serve_entry-Answered codec now h e status = write_header-Answered _

pub serve_response-Answered :
    (h : Fields) (resp : Response) (status : Text) → Answered (serve_response h resp status)
unfolding serve_response
serve_response-Answered h resp status = write_header-Answered _

pub http_error-Answered :
    (h : Fields) (message : Text) (code : ℕ)
    → is_sendable code ≡ true
    → Answered (replied (http_error h message code))
unfolding http_error
http_error-Answered h message code e = sent _ e

pub not_modified-Answered :
    (h : Fields) (key value : Text) → Answered (replied (not_modified h key value))
unfolding not_modified is_sendable
not_modified-Answered h key value = sent _ refl
