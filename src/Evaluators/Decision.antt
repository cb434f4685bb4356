-- ===== src/Evaluators/Decision.antt =====
-- sdk/python/tap/evaluators/base.py. An evaluator is a pure function of the accumulated output, as
-- the protocol class asks.
use tap.Base.{Bool, true, false, Option}
use tap.Base.Text.{Text}

pub data Decision : Type 0 where
  «continue» halt : Decision

abbrev pub is_halt : Decision → Bool
is_halt halt = true
is_halt _ = false

pub record Evaluator : Type 0 where
  -- the attribute `name`, which a callable may lack
  pub name : Option Text
  pub run : Text → Decision
