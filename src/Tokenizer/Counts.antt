-- ===== src/Tokenizer/Counts.antt =====
-- When `count` of sdk/python/tap/tokenizer.py returns.
use tap.Base.{ℕ, ◌≡◌, true, arith}
use tap.Base.Text.{Text}
use tap.Base.Exceptions.{ok}
use tap.Tokenizer.{Registry, is_registered, count}

-- A tokenizer that counts is registered.
pub count-is_registered :
    (registry : Registry) (name text : Text) {n : ℕ}
    → count registry name text ≡ ok n
    → is_registered registry name ≡ true
unfolding count is_registered
count-is_registered registry name text h = ground arith
