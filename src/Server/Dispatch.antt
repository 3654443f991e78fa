-- ===== src/Server/Dispatch.antt =====
-- The dispatch of Server::run in src/linear_fcgi_server.cc: what each handler keeps, it keeps.
use linear_fcgi.Common.{Bool, true, false, Option, none, some, if◌then◌else◌, bytes_eq, codes}
use linear_fcgi.Loop.{World}
use linear_fcgi.Queries
use linear_fcgi.Request.Input.{Request, Method, get_method}
use linear_fcgi.Response.Codes.{bad_request}
use linear_fcgi.Server.Handlers
use linear_fcgi.Server.Handlers.{Server, Env, Answer, on_poll, on_post, on_get, by_method, handle}
use linear_fcgi.Server.Reply.{status}

module _ (P : World → Type 0) where
  -- What is true of the world of an answer, if there is one.
  abbrev pub After : Option Answer → Type 0
  After none = Unit
  After (some (w, reply)) = P w

  pub if_kept : (b : Bool) (x y : Answer) → P x.0 → P y.0 → P (if b then x else y).0
  if_kept true x y h k = h
  if_kept false x y h k = k

  pub if-After : (b : Bool) (x y : Option Answer) → After x → After y → After (if b then x else y)
  if-After true x y h k = h
  if-After false x y h k = k

  module _ (s : Server) (env : Env) (req : Request) (w : World) (same : P w)
      (connects : After (Handlers.on_connect s env req w))
      (disconnects : P (Handlers.on_disconnect req w).0) (polls : After (on_poll env req w))
      (posts : P (on_post s req w).0) where
    on_get-After : After (on_get s env req w)
    unfolding on_get
    on_get-After =
        let command = Queries.get_command req.queries in
        let otherwise = some (w, status bad_request) in
        let b = bytes_eq command (codes "poll") in
        let d = bytes_eq command (codes "disconnect") in
        let rest = if b then on_poll env req w else otherwise in
        let leaves = some (Handlers.on_disconnect req w) in
        if-After (bytes_eq command (codes "connect")) (Handlers.on_connect s env req w)
          (if d then leaves else rest) connects
          (if-After d leaves rest disconnects (if-After b (on_poll env req w) otherwise polls same))

    by_method-After : (m : Method) → After (by_method m s env req w)
    unfolding by_method
    by_method-After Method.get = on_get-After
    by_method-After Method.post = posts
    by_method-After Method.unknown = same

    pub handle-After : After (handle s env req w)
    unfolding handle
    handle-After = by_method-After (get_method req.envs)
