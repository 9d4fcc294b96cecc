-- ===== src/Monitors/CostLog.antt =====
-- crates/secureops-monitors/src/cost.rs: `token_cost` and `parse_session_log`, and the f64 of the cost
-- monitor. serde_json is `parse_line`.
use secureops.Prelude.{
  ℕ, Bool, false, not, ◌||◌, Option, none, some, List, [], ◌∷◌, String, split, ◌==◌, str_eq,
  if◌then◌else◌,
}

pub record F64 : Type 1 where
  pub Float : Type 0
  -- a decimal literal of the source
  pub literal : String → Float
  pub of_u64 : ℕ → Float
  pub add : Float → Float → Float
  pub mul : Float → Float → Float
  pub div : Float → Float → Float
  pub gt : Float → Float → Bool
  -- `{:.2}` and `{}`
  pub fixed_2 : Float → String
  pub display : Float → String

-- What `parse_session_log` reads of a line that is JSON.
pub record Usage : Type 0 where
  pub input_tokens : Option ℕ
  pub output_tokens : Option ℕ
  pub model : Option String
  pub timestamp : Option String

abbrev or_0 : Option ℕ → ℕ
or_0 none = 0
or_0 (some n) = n

abbrev or_text : String → Option String → String
or_text d none = d
or_text d (some s) = s

abbrev has_model : Option String → Bool
has_model none = false
has_model (some m) = not (str_eq m "")

abbrev pub is_truthy : Usage → Bool
is_truthy u = not (or_0 u.input_tokens == 0) || not (or_0 u.output_tokens == 0) || has_model u.model

module _ (f : F64) where
  pub record CostEntry : Type 0 where
    pub timestamp : String
    pub model : String
    pub input_tokens : ℕ
    pub output_tokens : ℕ
    pub estimated_cost_usd : f.Float

  -- The costs of an input and an output token.
  abbrev pub Rates : Type 0
  Rates = f.Float × f.Float

  unfoldable pub token_cost : String → Rates
  token_cost model =
      if str_eq model "claude-opus-4"
      then (f.literal "0.000015", f.literal "0.000075")
      else if str_eq model "claude-sonnet-4"
      then (f.literal "0.000003", f.literal "0.000015")
      else if str_eq model "claude-haiku-4"
      then (f.literal "0.0000008", f.literal "0.000004")
      else if str_eq model "gpt-4"
      then (f.literal "0.00003", f.literal "0.00006")
      else if str_eq model "gpt-4o"
      then (f.literal "0.0000025", f.literal "0.00001")
      else (f.literal "0.000003", f.literal "0.000015")

  abbrev cost_of : Rates → ℕ → ℕ → f.Float
  cost_of (input, output) m n = f.add (f.mul (f.of_u64 m) input) (f.mul (f.of_u64 n) output)

  unfoldable pub entry_of : String → Usage → CostEntry
  unfolding token_cost
  entry_of now u =
      let model = or_text "default" u.model in
      record {
        timestamp = or_text now u.timestamp;
        model = model;
        input_tokens = or_0 u.input_tokens;
        output_tokens = or_0 u.output_tokens;
        estimated_cost_usd =
            cost_of (token_cost model) (or_0 u.input_tokens) (or_0 u.output_tokens);
      }

  module _ (parse_line : String → Option Usage) where
    abbrev parsed : String → Option Usage → List CostEntry → List CostEntry
    parsed now none rest = rest
    parsed now (some u) rest = if is_truthy u then entry_of now u ∷ rest else rest

    -- The loop over the lines that are not empty.
    unfoldable pub parse_lines : String → List String → List CostEntry
    parse_lines now [] = []
    parse_lines now (line ∷ lines) =
        let rest = parse_lines now lines in
        if str_eq line "" then rest else parsed now (parse_line line) rest

    unfoldable pub parse_session_log : String → String → List CostEntry
    unfolding parse_lines
    parse_session_log content now = parse_lines now (split 10 content)
