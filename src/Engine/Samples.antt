-- ===== src/Engine/Samples.antt =====
-- engine.py: an engine with a local component, a child engine and two clients, for the tests.
use openrois.Common.{Bool, true, false, none, some, [], ◌∷◌, Text, codes}
use openrois.Profiles.Status.{ComponentFunction}
use openrois.Profiles.Units.{MessageProfile, ComponentProfile}
use openrois.Engine.State.{local, child, Source, Session, Command, Subscription, Engine}

-- any value of any type decodes
abbrev pub any_value : Text → Text → Bool
any_value code value = true

abbrev pub nav : Text
nav = codes "r/nav"

abbrev pub arm : Text
arm = codes "k/arm"

abbrev pub go : MessageProfile
go = record { name = codes "go"; arguments = []; timeout = none }

abbrev pub actuator : ComponentProfile
actuator = record {
  identifier = record { authority = []; code = codes "Navigation" };
  name = codes "Navigation";
  function = some ComponentFunction.actuation;
  sub_component_profiles = [];
  command_profiles = go ∷ [];
  query_profiles = [];
  event_profiles = [];
  parameter_profiles = [];
}

abbrev pub robot_source : Source
robot_source = record {
  engine_ids = codes "r" ∷ [];
  profiles = (nav, actuator) ∷ [];
  engine_profile = none;
}

abbrev pub kitchen_source : Source
kitchen_source = record {
  engine_ids = codes "k" ∷ [];
  profiles = (arm, actuator) ∷ [];
  engine_profile = none;
}

abbrev pub client : Session
client = record { trusted = false; connected = true }

abbrev pub ada : Text
ada = codes "session-1"

abbrev pub ben : Text
ben = codes "session-2"

abbrev pub running : Command
running = record { session_id = ada; ref = nav; source = some local; status = none; task = true }

abbrev pub watched : Subscription
watched = record {
  session_id = ada;
  source = child 7;
  ref = arm;
  event_type = codes "moved";
  condition = [];
}

-- two connected clients, no binds, one command that runs, and one subscription at the child
abbrev pub robot : Engine
robot = record {
  engine_id = codes "r";
  local_source = robot_source;
  children = (7, kitchen_source) ∷ [];
  peers = (ada, client) ∷ (ben, client) ∷ [];
  sessions = ada ∷ ben ∷ [];
  binds = [];
  objects = running ∷ [];
  commands = (codes "r/cmd-1", 0) ∷ [];
  subscriptions = (codes "k/sub-1", watched) ∷ [];
  next_session = 2;
  next_command = 1;
  sent = [];
  kept = [];
}
