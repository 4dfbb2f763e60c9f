-- ===== src/Config/Tests.antt =====
-- config.py: an adapter with a file, an environment and one flag.
use openrois.Common.{◌≡◌, refl, Option, none, some, [], ◌∷◌, Text, text_eq, codes, upper, ok}
use openrois.Common.Dict
use openrois.Common.Dict.{Dict}
use openrois.Condition.Parse.{mem_text}
use openrois.Engine.Binds.{is_empty}
use openrois.Config.Load.{
  Content, mapping, adapter_settings, adapter_env_prefix, file_of, named_file, env_value, update,
  read_file, file_values, put_some, load_env, load_flags, some_value, load_values,
}
use openrois.Config.Precedence.{or_else, given, allowed, load_values-precedence}

abbrev yaml_file : Text → Content Text
yaml_file path =
    mapping ((codes "engine_id", codes "file") ∷ (codes "log_level", codes "debug") ∷ [])

abbrev as_it_is : Text → Text
as_it_is t = t

abbrev environ : Dict Text
environ =
    (codes "OPENROIS_ADAPTER_CONFIG", codes "a.yaml")
    ∷ (codes "OPENROIS_ADAPTER_ENGINE_ID", codes "env")
    ∷ []

abbrev flags : Dict (Option Text)
flags = (codes "engine_id", none) ∷ (codes "gateway_url", some (codes "ws://g")) ∷ []

abbrev settings : Dict Text
settings =
    (codes "engine_id", codes "env")
    ∷ (codes "log_level", codes "debug")
    ∷ (codes "gateway_url", codes "ws://g")
    ∷ []

loads :
    load_values yaml_file as_it_is adapter_env_prefix adapter_settings environ none flags
    ≡ ok settings
unfolding load_values file_values file_of named_file env_value read_file update put_some load_env
    load_flags some_value Dict.get Dict.put text_eq upper is_empty
loads = refl

load_values-precedence_example :
    (file : Dict Text) × (file_values yaml_file (file_of adapter_env_prefix environ none) ≡ ok file)
    × (Dict.get (codes "engine_id") settings
        ≡ or_else (given (codes "engine_id") flags) (
            or_else
              (allowed
                (mem_text (codes "engine_id") adapter_settings)
                (some_value as_it_is (env_value adapter_env_prefix environ (codes "engine_id"))))
              (Dict.get (codes "engine_id") file)))
load_values-precedence_example =
    load_values-precedence yaml_file as_it_is adapter_env_prefix adapter_settings environ none flags
      settings (codes "engine_id") loads
