-- ===== src/Producer/Server/App.antt =====
-- sdk/python/tap/producer/server.py: the routes that are registered, and the lifespan of the
-- application, which runs the settler. FastAPI calls the lifespan around the serving of requests.
use tap.Base.{◌≡◌, refl, false, Option, none, some, List, [], ◌∷◌, ◌++◌, if◌then◌else◌, arith}
use tap.Base.Text.{Text, codes, text_eq, text_eq_iff, starts_with}
use tap.Base.Action.{Action, modify, try_finally, ◌>>=◌, ◌>>◌}
use tap.Producer.Settler.{Worker, start, stop}

-- `_Route`
pub record Route (H : Type 0) : Type 0 where
  pub path : Text
  pub handler : H

-- `self._routes`, and the paths in the order of `self._mount`.
pub record RouteTable (H : Type 0) : Type 0 where
  pub by_path : List (Text × Route H)
  pub mounted : List Text

unfoldable pub normalized : Text → Text
normalized path = if starts_with path (codes "/") then path else b'/' ∷ path

module _ {H : Type 0} where
  unfoldable pub put_route : Text → Route H → List (Text × Route H) → List (Text × Route H)
  put_route path route [] = (path, route) ∷ []
  put_route path route ((p, r) ∷ rest) =
      if text_eq p path then (path, route) ∷ rest else (p, r) ∷ put_route path route rest

  unfoldable pub route_of : Text → List (Text × Route H) → Option (Route H)
  route_of path [] = none
  route_of path ((p, r) ∷ rest) = if text_eq p path then some r else route_of path rest

  -- The decorator `handler(path)` on `fn`.
  unfoldable pub add_route : Text → H → RouteTable H → RouteTable H
  unfolding normalized put_route
  add_route path fn app = record {
    by_path =
        put_route (normalized path) (record { path = normalized path; handler = fn }) app.by_path;
    mounted = app.mounted ++ (normalized path ∷ []);
  }

-- `serving` is what happens while the application runs.
unfoldable pub lifespan : {A : Type 0} → Action Worker A → Action Worker A
unfolding start stop
lifespan serving = modify start >> try_finally serving (modify stop)

module _ {H : Type 0} where
  route_of-put_route :
      (path q : Text) (route : Route H) (routes : List (Text × Route H))
      → route_of q (put_route path route routes)
        ≡ (if text_eq path q then some route else route_of q routes)
  unfolding route_of put_route
  route_of-put_route path q route [] = refl
  route_of-put_route path q route ((p, r) ∷ rest) = ground (
    arith,
    text_eq_iff path q,
    text_eq_iff p path,
    text_eq_iff p q,
    route_of-put_route path q route rest,
  )

  -- A handler is found under its path, written with the slash or without, and the routes of other
  -- paths stay.
  route_of-add_route :
      (path q : Text) (fn : H) (app : RouteTable H)
      → route_of q (add_route path fn app).by_path ≡ (
          if text_eq (normalized path) q
          then some (record { path = normalized path; handler = fn })
          else route_of q app.by_path)
  unfolding add_route
  route_of-add_route path q fn app = route_of-put_route (normalized path) q _ app.by_path

-- The settler runs while the application serves, and is stopped when that ends, however it ends;
-- what it returned or raised is passed on.
lifespan_lem :
    {A : Type 0} (serving : Action Worker A) (w : Worker)
    → ((lifespan serving w).0 ≡ (serving (start w)).0) × (lifespan serving w).1.task ≡ false
unfolding lifespan ◌>>=◌ ◌>>◌
lifespan_lem serving w = (refl, ground arith)
