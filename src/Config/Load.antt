-- ===== src/Config/Load.antt =====
-- config.py: `load_config`. `read_yaml` stands for the reading of a file by the YAML library, with the
-- keys as texts, and `validate` for the validation by the model of the settings.
use openrois.Common.{
  Bool, not, ◌&&◌, Option, none, some, List, [], ◌∷◌, ◌++◌, ◌==◌, if◌then◌else◌, any, Text, codes,
  upper, Result, ok, err, ◌>>=◌,
}
use openrois.Common.Dict
use openrois.Common.Dict.{Dict}
use openrois.Engine.Binds.{is_empty}

-- `ConfigError`, by the place that raises it
pub data ConfigError : Type 0 where
  unreadable invalid_yaml no_mapping invalid_settings : ConfigError

-- What reading a file as YAML gives: the OSError, the YAMLError, or the content.
pub data Content (V : Type 0) : Type 0 where
  os_error yaml_error nothing other : Content V
  mapping : Dict V → Content V

-- the settings that the environment and the flags of an adapter may set: `ADAPTER_SETTINGS`
abbrev pub adapter_settings : List Text
adapter_settings =
    codes "gateway_url" ∷ codes "engine_id" ∷ codes "robot_address" ∷ codes "log_level" ∷ []

-- `ADAPTER_ENV_PREFIX`
abbrev pub adapter_env_prefix : Text
adapter_env_prefix = codes "OPENROIS_ADAPTER_"

-- `check_engine_id`: true where it raises no ValueError
unfoldable pub is_engine_id : Text → Bool
is_engine_id value = not (is_empty value) && not (any (λ c. c == b'/') value)

-- The file to read: the one of the flag, or the one that the environment names.
unfoldable pub named_file : Option Text → Option Text
named_file none = none
named_file (some path) = if is_empty path then none else some path

unfoldable pub file_of : Text → Dict Text → Option Text → Option Text
file_of env_prefix environ (some path) = some path
file_of env_prefix environ none = named_file (Dict.get (env_prefix ++ codes "CONFIG") environ)

-- the value of a setting in the environment
unfoldable pub env_value : Text → Dict Text → Text → Option Text
env_value env_prefix environ name = Dict.get (env_prefix ++ upper name) environ

unfoldable pub validated : {M : Type 0} → Option M → Result ConfigError M
validated none = err invalid_settings
validated (some m) = ok m

module _ {V : Type 0} where
  -- values.update(d)
  unfoldable pub update : Dict V → Dict V → Dict V
  update settings [] = settings
  update settings ((k, v) ∷ d) = update (Dict.put k v settings) d

  -- `_read_file`
  unfoldable pub read_file : Content V → Result ConfigError (Dict V)
  read_file os_error = err unreadable
  read_file yaml_error = err invalid_yaml
  read_file nothing = ok []
  read_file other = err no_mapping
  read_file (mapping content) = ok content

  unfoldable pub file_values : (Text → Content V) → Option Text → Result ConfigError (Dict V)
  file_values read_yaml none = ok []
  file_values read_yaml (some path) = do
    content ← read_file (read_yaml path)
    ok (update [] content)

  unfoldable pub put_some : Text → Option V → Dict V → Dict V
  put_some name none settings = settings
  put_some name (some v) settings = Dict.put name v settings

  -- the loop over the names, with the values of the environment
  unfoldable pub load_env : (Text → Option V) → List Text → Dict V → Dict V
  load_env from_env [] settings = settings
  load_env from_env (name ∷ names) settings =
      load_env from_env names (put_some name (from_env name) settings)

  -- the loop over the flags
  unfoldable pub load_flags : Dict (Option V) → Dict V → Dict V
  load_flags [] settings = settings
  load_flags ((name, value) ∷ flags) settings = load_flags flags (put_some name value settings)

  unfoldable pub some_value : (Text → V) → Option Text → Option V
  some_value of_text none = none
  some_value of_text (some t) = some (of_text t)

  -- `load_config` up to the validation; `of_text` makes a value of a text of the environment
  unfoldable pub load_values :
      (Text → Content V)
      → (Text → V)
      → Text
      → List Text
      → Dict Text
      → Option Text
      → Dict (Option V)
      → Result ConfigError (Dict V)
  load_values read_yaml of_text env_prefix names environ config_file flags = do
    file ← file_values read_yaml (file_of env_prefix environ config_file)
    ok (
        load_flags flags
          (load_env (λ name. some_value of_text (env_value env_prefix environ name)) names file))

  -- `load_config`
  unfoldable pub load_config :
      {M : Type 0}
      → (Dict V → Option M)
      → (Text → Content V)
      → (Text → V)
      → Text
      → List Text
      → Dict Text
      → Option Text
      → Dict (Option V)
      → Result ConfigError M
  load_config validate read_yaml of_text env_prefix names environ config_file flags = do
    settings ← load_values read_yaml of_text env_prefix names environ config_file flags
    validated (validate settings)
