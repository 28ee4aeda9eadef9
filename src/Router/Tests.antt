-- ===== src/Router/Tests.antt =====
-- The theorems about the rate limit at a concrete rule.
use cratos_ai.Prelude.{◌+◌, ◌*◌, ◌≤◌, ◌≡◌, refl, Option, none, some, [], ◌∷◌, arith}
use cratos_ai.Router.Limits.{Rule, Cell}
use cratos_ai.Router.Limits.Bucket.{empty, replies, pours, gcra_is_bucket}
use cratos_ai.Router.Limits.Rate.{calls, calls_within_rate}

-- Two at once, one more every ten milliseconds.
abbrev rule : Rule
rule = record { interval_ms = 10; burst = 2 }

calls_within_rate_example :
    100 + (calls rule (100 ∷ 100 ∷ 100 ∷ 115 ∷ []) none).0 * 10 ≤ 120 + 2 * 10
calls_within_rate_example =
    calls_within_rate rule 100 120 (100 ∷ 100 ∷ 100 ∷ 115 ∷ []) none tt
      (omega arith, (omega arith, (omega arith, (omega arith, omega arith)))) (omega arith)

abbrev used_up : Option Cell
used_up = some (record { tat = 120; expires = 120 })

gcra_is_bucket_example :
    replies rule (100 ∷ 100 ∷ 100 ∷ 115 ∷ []) none
    ≡ pours rule (100 ∷ 100 ∷ 100 ∷ 115 ∷ []) (empty 100)
gcra_is_bucket_example =
    gcra_is_bucket rule 100 120 (100 ∷ 100 ∷ 100 ∷ 115 ∷ []) none (empty 100) tt refl (omega arith)
      (omega arith, (omega arith, (omega arith, (omega arith, omega arith))))
