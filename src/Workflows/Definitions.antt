-- ===== src/Workflows/Definitions.antt =====
-- Definitions of workflows and steps: mmids-core/src/workflows/definitions.rs.
use Prim.Native.Nat.{Ordering}
use Prim.Native.String.{compare}
use mmids_core.Common.{
  ℕ, String, Bool, true, false, Option, List, [], ◌∷◌, if◌then◌else◌, nat_eq, string_eq, Map, keys,
  lookup,
}

-- `WorkflowStepType(String)` and `WorkflowStepId(u64)`.
abbrev pub WorkflowStepType : Type 0
WorkflowStepType = String

abbrev pub WorkflowStepId : Type 0
WorkflowStepId = ℕ

pub record WorkflowStepDefinition : Type 0 where
  pub step_type : WorkflowStepType
  pub parameters : Map String (Option String)

pub record WorkflowDefinition : Type 0 where
  pub name : String
  pub routed_by_reactor : Bool
  pub steps : List WorkflowStepDefinition

-- What is written to a hasher: a text, or what `get` finds in a map of optional texts.
pub data HashToken : Type 0 where
  text : String → HashToken
  found : Option (Option String) → HashToken

-- `sorted_keys.sort()`.
abbrev pub at_most : String → String → Bool
at_most a b = elim (compare a b) [ Ordering.gt ↦ false | _ ↦ true ]

unfoldable pub insert_key : String → List String → List String
insert_key a [] = a ∷ []
insert_key a (b ∷ bs) = if at_most a b then a ∷ b ∷ bs else b ∷ insert_key a bs

unfoldable pub sort_keys : List String → List String
sort_keys [] = []
sort_keys (a ∷ rest) = insert_key a (sort_keys rest)

abbrev pub parameter_tokens : Map String (Option String) → List String → List HashToken
parameter_tokens parameters [] = []
parameter_tokens parameters (key ∷ rest) =
    text key ∷ found (lookup key parameters) ∷ parameter_tokens parameters rest

-- `Hash::hash` for a step definition.
unfoldable pub hash : WorkflowStepDefinition → List HashToken
hash d = text d.step_type ∷ parameter_tokens d.parameters (sort_keys (keys d.parameters))

-- `get_id`. The hasher of the standard library is an argument.
unfoldable pub get_id : (List HashToken → ℕ) → WorkflowStepDefinition → WorkflowStepId
get_id hasher d = hasher (hash d)
