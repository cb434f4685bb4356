-- ===== src/Chain/Keypair.antt =====
-- sdk/python/tap/chain/keypair_io.py. The file system, `json.loads`, `bytes(...)` of a JSON value
-- and `Keypair.from_bytes` are arguments.
use tap.Base.{ℕ, List, if◌then◌else◌}
use tap.Base.Text.{Text, codes, strip, starts_with}
use tap.Base.Exceptions.{Result, ok, ◌>>=◌}
use tap.Json.{Value}

module _ {SK : Type 0} (read_text : Text → Result Text) (loads : Text → Result Value)
    (value_bytes : Value → Result (List ℕ)) (from_bytes : List ℕ → Result SK) where
  unfoldable pub load_keypair : Text → Result SK
  unfolding strip
  load_keypair path_or_json = do
    let text = strip path_or_json
    contents ← (if starts_with text (codes "[") then ok text else read_text text)
    raw ← loads contents
    bytes ← value_bytes raw
    from_bytes bytes
