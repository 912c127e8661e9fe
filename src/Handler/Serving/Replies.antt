-- ===== src/Handler/Serving/Replies.antt =====
-- How requests to the multi-tenant handler of handler/multitenant.go end.
use cdn_edge.Cache.Entry.{Entry}
use cdn_edge.Handler.Requests.Replies.{Replies}
