-- ===== src/Profiles/Units.antt =====
-- hri.py and profiles.py: values, command units and profiles.
use openrois.Common.{ℕ, Bool, Option, List, Text}
use openrois.Profiles.Status.{ComponentFunction}

-- `Result`, `Parameter` and `Argument`, which have the same fields.
pub record Named : Type 0 where
  pub name : Text
  pub data_type_ref : Text
  pub value : Text

pub record CommandUnit : Type 0 where
  pub component_ref : Text
  pub command_type : Text
  pub command_id : Text
  pub arguments : List Named
  pub delay_time : Option ℕ

-- `Branch`
pub record Branch : Type 0 where
  pub command_list : List CommandUnit

-- `CommandUnit | ConcurrentCommands`
pub data Item : Type 0 where
  single : CommandUnit → Item
  concurrent : List Branch → Option ℕ → Item

pub record Identifier : Type 0 where
  pub authority : Text
  pub code : Text

pub record ParameterProfile : Type 0 where
  pub name : Text
  pub data_type_ref : Text
  pub default_value : Option Text
  pub read_only : Bool

-- A command, query or event message: what the engine reads of it.
pub record MessageProfile : Type 0 where
  pub name : Text
  pub arguments : List ParameterProfile
  pub timeout : Option ℕ

pub record ComponentProfile : Type 0 where
  pub identifier : Identifier
  pub name : Text
  pub function : Option ComponentFunction
  pub sub_component_profiles : List Text
  pub command_profiles : List MessageProfile
  pub query_profiles : List MessageProfile
  pub event_profiles : List MessageProfile
  pub parameter_profiles : List ParameterProfile

-- `HRIEngineProfileType`, with the profiles of the engines below.
mutual
  pub data EngineProfile : Type 0 where
    engine : Text → SubProfiles → List Text → EngineProfile

  pub data SubProfiles : Type 0 where
    nil : SubProfiles
    cons : EngineProfile → SubProfiles → SubProfiles
