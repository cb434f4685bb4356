-- ===== src/Adapters/Requests/Merged.antt =====
-- What a model SDK is asked: the consumer's body over the adapter's defaults.
use tap.Base.{◌≡◌, refl, ◌∙◌, ap, Option, none, some, arith, if◌then◌else◌}
use tap.Base.Int.{ℤ}
use tap.Base.Text.{Text, codes, text_eq, text_eq_iff}
use tap.Json.{Value, int, str, Fields, end, field, lookup}
use tap.Adapters.Requests.{set_key, update_dict, anthropic_body}

-- Each key once.
abbrev pub IsDict : Fields → Type 0
IsDict end = Unit
IsDict (field k v fs) = (lookup k fs ≡ none) × IsDict fs

abbrev pub over : Option Value → Option Value → Option Value
over (some v) default = some v
over none default = default

lookup-set_key :
    (k j : Text) (v : Value) (fs : Fields)
    → lookup j (set_key k v fs) ≡ (if text_eq k j then some v else lookup j fs)
unfolding set_key
lookup-set_key k j v end = refl
lookup-set_key k j v (field i w fs) =
    ground (arith, text_eq_iff k j, text_eq_iff i k, text_eq_iff i j, lookup-set_key k j v fs)

-- A key of a dictionary is none of the later ones.
over-head :
    (k j : Text) (v : Value) (body : Fields) (default : Option Value)
    → lookup k body ≡ none
    → over (lookup j body) (if text_eq k j then some v else default)
      ≡ over (if text_eq k j then some v else lookup j body) default
over-head k j v body default h = ground (arith, text_eq_iff k j)

lookup-update_dict :
    (j : Text) (fs body : Fields)
    → IsDict body
    → lookup j (update_dict fs body) ≡ over (lookup j body) (lookup j fs)
unfolding update_dict
lookup-update_dict j fs end d = refl
lookup-update_dict j fs (field k v body) d =
    lookup-update_dict j (set_key k v fs) body d.1
    ∙ ap (over (lookup j body)) (lookup-set_key k j v fs)
    ∙ over-head k j v body (lookup j fs) d.0

-- Anthropic's service is asked for what the consumer's body says, under every key that the body
-- has, and else for the adapter's model and token limit, and for nothing more.
pub lookup-anthropic_body :
    (j model : Text) (max_tokens : ℤ) (body : Fields)
    → IsDict body
    → lookup j (anthropic_body model max_tokens body)
      ≡ over (lookup j body) (
          if text_eq (codes "model") j
          then some (str model)
          else if text_eq (codes "max_tokens") j
          then some (int max_tokens)
          else none)
unfolding anthropic_body
lookup-anthropic_body j model max_tokens body d = lookup-update_dict j _ body d
