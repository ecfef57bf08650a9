-- ===== src/Lift/Match.antt =====
-- crates/tx3-lift/src/match_.rs and the trait of crates/tx3-lift/src/lift.rs: what a chain gives to the
-- core, a matcher and a lifter over its payloads.
use tx3_lift.Prelude.{ℕ, Option, List, Text, Result}
use tx3_lift.Lift.Tir.{Tx, TiiFile}
use tx3_lift.Lift.Payload.{PayloadSummary}
use tx3_lift.Lift.Lifted.{Lifted}

pub record MatchAssignment : Type 0 where
  pub tx_name : Text
  pub profile_name : Text
  pub input_map : List (List ℕ)
  pub output_map : List (List ℕ)
  pub reference_map : List (List ℕ)
  pub mint_map : List (List ℕ)
  pub burn_map : List (List ℕ)
  pub collateral_map : List (List ℕ)

-- the trait `Matcher`, with its associated types
pub record Matcher (Payload Error : Type 0) : Type 0 where
  pub summarize : Payload → Result Error PayloadSummary
  pub match_tx : Tx → Payload → Result Error (Option MatchAssignment)

-- the trait `Lifter: Matcher`; `A` are the assets of a lifted transaction
pub record Lifter (Payload Error A : Type 0) : Type 0 where
  pub matcher : Matcher Payload Error
  pub lift : TiiFile → Text → Text → Tx → Payload → MatchAssignment → Result Error (Lifted A)
