-- ===== src/Sla/MetaSchema.antt =====
-- packages/sla/schema.json: the schema of an SLA document, without its annotations, which
-- `validate` does not read.
use verdikt.Base.{ℕ, List, [], ◌∷◌, String, js}
use verdikt.Json.{Json, bool, num, str, arr, obj, array, object}
use verdikt.Json.Numbers.{of_ℕ}
use verdikt.Base.{false}

abbrev text : String → Json
text s = str (js s)

abbrev count : ℕ → Json
count n = num (of_ℕ n)

abbrev fields : List (String × Json) → Json
fields ms = obj (object (named ms))
  where
    named : List (String × Json) → List (List ℕ × Json)
    named [] = []
    named ((k, v) ∷ rest) = (js k, v) ∷ named rest

abbrev texts : List String → Json
texts ss = arr (array (each ss))
  where
    each : List String → List Json
    each [] = []
    each (s ∷ rest) = text s ∷ each rest

-- A string of `low` to `high` units.
abbrev bounded : ℕ → ℕ → Json
bounded low high =
    fields (("type", text "string") ∷ ("minLength", count low) ∷ ("maxLength", count high) ∷ [])

-- A kind of clause: its own members beside those that every clause has.
abbrev clause : String → List String → List (String × Json) → Json
clause kind required own = fields (
    ("type", text "object")
    ∷ ("additionalProperties", bool false)
    ∷ ("required", texts ("id" ∷ "type" ∷ required))
    ∷ (
      "properties",
      fields (
          ("id", bounded 1 64)
          ∷ ("description", fields (("type", text "string") ∷ ("maxLength", count 256) ∷ []))
          ∷ ("type", fields (("const", text kind) ∷ []))
          ∷ own),
    )
    ∷ [])

unfoldable pub meta_schema : Json
unfolding js
meta_schema = fields (
    ("type", text "object")
    ∷ ("additionalProperties", bool false)
    ∷ ("required", texts ("version" ∷ "clauses" ∷ []))
    ∷ (
      "properties",
      fields (
          ("version", fields (("const", count 1) ∷ []))
          ∷ (
            "clauses",
            fields (
                ("type", text "array")
                ∷ ("minItems", count 1)
                ∷ ("maxItems", count 32)
                ∷ ("items", fields (("oneOf", arr (array kinds)) ∷ []))
                ∷ []),
          )
          ∷ []),
    )
    ∷ [])
  where
    kinds : List Json
    kinds =
        clause "schema" ("schema" ∷ []) (("schema", fields (("type", text "object") ∷ [])) ∷ [])
        ∷ clause "latency" ("maxMs" ∷ []) (
            (
              "maxMs",
              fields (
                  ("type", text "integer") ∷ ("minimum", count 0) ∷ ("maximum", count 600000) ∷ []),
            )
            ∷ [])
        ∷ clause "priceRange" ("minMinorUnits" ∷ "maxMinorUnits" ∷ "asset" ∷ []) (
            ("minMinorUnits", bounded 1 78)
            ∷ ("maxMinorUnits", bounded 1 78)
            ∷ ("asset", bounded 1 16)
            ∷ [])
        ∷ clause "semantic" ("criteria" ∷ []) (("criteria", bounded 1 2048) ∷ [])
        ∷ []
