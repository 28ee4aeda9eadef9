-- ===== src/Orchestrator/CatalogTests.antt =====
-- The theorem about catalogs at two tools of one name.
use cratos_ai.Prelude.{
  ℕ, ◌+◌, ◌≤◌, ◌==◌, ◌≡◌, refl, ap, true, false, some, [], ◌∷◌, String, arith, length, zero, suc,
}
use Prim.Native.String.{count, ◌++◌ as followed}
use text.Mathlib.TextLemmas.{length-append as count-append}
use cratos_ai.Orchestrator.Engine.Catalog.{
  McpTool, CatalogWorld, candidate, builtins, build_catalog,
}
use cratos_ai.Orchestrator.Engine.Catalog.Named.{Named, build_catalog-Named}

abbrev marks : ℕ → String
marks zero = ""
marks (suc i) = followed "_" (marks i)

-- A number of marks for each number, none for 1.
abbrev many : ℕ → ℕ
many zero = 1
many (suc zero) = 0
many (suc (suc i)) = suc (suc i)

abbrev naming : CatalogWorld
naming = record {
  slugged = λ integration tool. followed integration tool;
  numbered = λ base i. followed base (marks (many i));
  is_usable = λ s. true;
  describe = λ t. t.title;
  device_description = λ ds. "";
  device_schema = λ ds. "{}";
  builtin_description = λ n. n;
  builtin_schema = λ n. "{}";
}

count-marks : (i : ℕ) → count (marks i) ≡ i
count-marks zero = refl
count-marks (suc i) = let k = count-append "_" (marks i) in omega (arith, k, count-marks i)

count-candidate : (base : String) (i : ℕ) → count (candidate naming base i) ≡ count base + many i
count-candidate base zero = let k = count-append base (marks 1) in omega (arith, k, count-marks 1)
count-candidate base (suc zero) = omega arith
count-candidate base (suc (suc i)) =
    let k = count-append base (marks (suc (suc i))) in
    let far : (suc (suc i) == 1) ≡ false = ground arith in
    rw far (omega (arith, k, count-marks (suc (suc i))))

distinct_many : (i j : ℕ) → many i ≡ many j → i ≡ j
distinct_many zero zero e = refl
distinct_many zero (suc zero) e = absurd (omega (arith, e))
distinct_many zero (suc (suc j)) e = absurd (omega (arith, e))
distinct_many (suc zero) zero e = absurd (omega (arith, e))
distinct_many (suc zero) (suc zero) e = refl
distinct_many (suc zero) (suc (suc j)) e = absurd (omega (arith, e))
distinct_many (suc (suc i)) zero e = absurd (omega (arith, e))
distinct_many (suc (suc i)) (suc zero) e = absurd (omega (arith, e))
distinct_many (suc (suc i)) (suc (suc j)) e = e

distinct_names :
    (base : String) (i j : ℕ) → candidate naming base i ≡ candidate naming base j → i ≡ j
distinct_names base i j e =
    let same = ap count e in
    distinct_many i j (omega (arith, same, count-candidate base i, count-candidate base j))

abbrev sending_tool : McpTool
sending_tool = record {
  integration_id = "i1";
  integration = "mail";
  name = "send";
  title = "Send";
  input_schema = "{}";
  read_only = false;
}

build_catalog-Named_example :
    let c = build_catalog naming true 8 [] (some (sending_tool ∷ sending_tool ∷ [])) in
    Named c × (length c ≤ length (builtins naming true []) + 8)
build_catalog-Named_example =
    build_catalog-Named naming distinct_names true 8 [] (some (sending_tool ∷ sending_tool ∷ []))
