-- ===== src/Consumer/Opening/Discovery.antt =====
-- sdk/python/tap/consumer/discovery.py, with `TapConsumer.close` of client.py. The state is the
-- number of HTTP clients that were created here and are not closed; `given` is whether the caller
-- passed a client. How a request ends is an argument.
use tap.Base.{ℕ, ◌+◌, ◌-◌, ◌≡◌, refl, ap, Bool, not, true, false, arith}
use tap.Base.Text.{Text}
use tap.Base.Exceptions.{Result, ok, err}
use tap.Base.Action.{Action, lift, modify, when, try_finally, ◌>>=◌, ◌>>◌}
use tap.Json.{Value, obj, Fields, Wire}
use tap.X402.Requirements.{PaymentRequirements}
use tap.Consumer.Opening.{HttpResponse, parse_402}

-- `http or httpx.AsyncClient(...)`
unfoldable pub create_client : Bool → Action ℕ (Unit {0})
create_client given = when (not given) (modify (λ n. n + 1))

-- `if own_client: await client.aclose()`, and `TapConsumer.close`.
unfoldable pub close_client : Bool → Action ℕ (Unit {0})
close_client own = when own (modify (λ n. n - 1))

module _ (wire : Wire) where
  -- The body that the two discoveries share.
  unfoldable pub discover_by : Bool → Result HttpResponse → Action ℕ PaymentRequirements
  unfolding create_client close_client
  discover_by given request = create_client given >> (do
    resp ← try_finally (lift request) (close_client (not given))
    lift (parse_402 wire resp))

  -- What the response says, where there is one.
  abbrev pub terms_of : Result HttpResponse → Result PaymentRequirements
  terms_of (ok resp) = parse_402 wire resp
  terms_of (err e) = err e

  discover_by_lem :
      (given : Bool) (request : Result HttpResponse) (open_clients : ℕ)
      → discover_by given request open_clients ≡ (terms_of request, open_clients)
  unfolding discover_by ◌>>=◌ ◌>>◌
  discover_by_lem true (ok resp) open_clients = refl
  discover_by_lem true (err e) open_clients = refl
  discover_by_lem false (ok resp) open_clients = ap (λ n. (parse_402 wire resp, n)) (omega arith)
  discover_by_lem false (err e) open_clients = ap (λ n. (err e, n)) (omega arith)

  module _ (get : Text → Result HttpResponse) (post : Text → Text → Result HttpResponse)
      (dumps : Value → Text) where
    unfoldable pub discover_generic : Bool → Text → Action ℕ PaymentRequirements
    unfolding discover_by
    discover_generic given producer_url = discover_by given (get producer_url)

    unfoldable pub discover_with_prompt : Bool → Text → Fields → Action ℕ PaymentRequirements
    unfolding discover_by
    discover_with_prompt given producer_url body =
        discover_by given (post producer_url (dumps (obj body)))

    -- Both discoveries, however the request ends: a client that was created is closed again, one
    -- that was given is left open, the terms are those of the response, and what the request raises
    -- is raised.
    discover-terms_of :
        (given : Bool) (producer_url : Text) (body : Fields) (open_clients : ℕ)
        → (discover_generic given producer_url open_clients
            ≡ (terms_of (get producer_url), open_clients))
          × (discover_with_prompt given producer_url body open_clients
              ≡ (terms_of (post producer_url (dumps (obj body))), open_clients))
    unfolding discover_generic discover_with_prompt
    discover-terms_of given producer_url body open_clients = (
      discover_by_lem given (get producer_url) open_clients,
      discover_by_lem given (post producer_url (dumps (obj body))) open_clients,
    )
