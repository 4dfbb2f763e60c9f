-- ===== src/Profiles/Status.antt =====
-- common.py, hri.py, profiles.py and service.py: the enumerations.
pub data ComponentStatus : Type 0 where
  uninitialized ready busy warning error : ComponentStatus

pub data ReturnCode : Type 0 where
  ok error bad_parameter unsupported out_of_resources timeout : ReturnCode

pub data CompletedStatus : Type 0 where
  ok error abort out_of_resources timeout : CompletedStatus

pub data ErrorType : Type 0 where
  engine_internal_error component_internal_error : ErrorType
  component_not_responding user_defined_error : ErrorType

pub data ComponentFunction : Type 0 where
  actuation sensing function : ComponentFunction
