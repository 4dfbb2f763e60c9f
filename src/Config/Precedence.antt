-- ===== src/Config/Precedence.antt =====
-- config.py: which value a setting has when several places give one.
use openrois.Common.{
  ◌≡◌, refl, ap, ◌∙◌, Bool, true, false, ◌||◌, Option, none, some, List, [], ◌∷◌, arith,
  if◌then◌else◌, any, Text, text_eq, text_eq_iff, ok, >>=-eq-ok,
}
use openrois.Common.Dict
use openrois.Common.Dict.{Dict, get-put}
use openrois.Condition.Parse.{mem_text}
use openrois.Config.Load.{
  Content, file_of, env_value, file_values, put_some, load_env, load_flags, some_value, load_values,
}

module _ {V : Type 0} where
  -- the first that is there
  abbrev pub or_else : Option V → Option V → Option V
  or_else none b = b
  or_else (some v) b = some v

  -- the value of a flag that was given
  abbrev pub given : Text → Dict (Option V) → Option V
  given name [] = none
  given name ((k, v) ∷ flags) = or_else (given name flags) (if text_eq k name then v else none)

  get-put_some :
      (k name : Text) (v : Option V) (d : Dict V)
      → Dict.get name (put_some k v d)
        ≡ or_else (if text_eq k name then v else none) (Dict.get name d)
  unfolding put_some
  get-put_some k name none d = ground arith
  get-put_some k name (some v) d = ground (arith, get-put k name v d)

  or_else_assoc : (a b c : Option V) → or_else a (or_else b c) ≡ or_else (or_else a b) c
  or_else_assoc none b c = refl
  or_else_assoc (some v) b c = refl

  get-load_flags :
      (name : Text) (flags : Dict (Option V)) (d : Dict V)
      → Dict.get name (load_flags flags d) ≡ or_else (given name flags) (Dict.get name d)
  unfolding load_flags
  get-load_flags name [] d = refl
  get-load_flags name ((k, v) ∷ flags) d =
      get-load_flags name flags (put_some k v d)
      ∙ ap (or_else (given name flags)) (get-put_some k name v d)
      ∙ or_else_assoc (given name flags) (if text_eq k name then v else none) (Dict.get name d)

  -- a value from the environment, for a name that it may set
  abbrev pub allowed : Bool → Option V → Option V
  allowed true v = v
  allowed false v = none

  env-round :
      (f : Text → Option V) (k name : Text) (b : Bool) (old : Option V)
      → or_else (allowed b (f name)) (or_else (if text_eq k name then f k else none) old)
        ≡ or_else (allowed (text_eq k name || b) (f name)) old
  env-round f k name b old = ground (arith, text_eq_iff k name)

  get-load_env :
      (f : Text → Option V) (name : Text) (names : List Text) (d : Dict V)
      → Dict.get name (load_env f names d)
        ≡ or_else (allowed (mem_text name names) (f name)) (Dict.get name d)
  unfolding load_env mem_text any
  get-load_env f name [] d = refl
  get-load_env f name (k ∷ names) d =
      get-load_env f name names (put_some k (f k) d)
      ∙ ap (or_else (allowed (mem_text name names) (f name))) (get-put_some k name (f k) d)
      ∙ env-round f k name (mem_text name names) (Dict.get name d)

  -- A setting has the value of its flag where that was given, then the value of the environment where
  -- the names allow it, then the value of the file.
  pub load_values-precedence :
      (read_yaml : Text → Content V) (of_text : Text → V) (env_prefix : Text) (names : List Text)
      (environ : Dict Text) (config_file : Option Text) (flags : Dict (Option V))
      (settings : Dict V) (name : Text)
      → load_values read_yaml of_text env_prefix names environ config_file flags ≡ ok settings
      → (file : Dict V) × (file_values read_yaml (file_of env_prefix environ config_file) ≡ ok file)
        × (Dict.get name settings
            ≡ or_else (given name flags) (
                or_else
                  (allowed
                    (mem_text name names)
                    (some_value of_text (env_value env_prefix environ name)))
                  (Dict.get name file)))
  unfolding load_values
  load_values-precedence read_yaml of_text env_prefix names environ config_file flags settings name
        h =
      let (file, read, made) =
        >>=-eq-ok (file_values read_yaml (file_of env_prefix environ config_file)) _ h in
      let f : Text → Option V = λ n. some_value of_text (env_value env_prefix environ n) in
      let same : load_flags flags (load_env f names file) ≡ settings = cc (made) in
      (
        file,
        read,
        rw same at (
            get-load_flags name flags (load_env f names file)
            ∙ ap (or_else (given name flags)) (get-load_env f name names file)),
      )
