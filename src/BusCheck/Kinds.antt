-- ===== src/BusCheck/Kinds.antt =====
-- `node_kind` of software_bus/bus_check.py, with `os.path.basename` as on a POSIX system. `str.lower` is
-- an argument.
mod Tests
use software_bus.Prelude.{
  ℕ, ◌-◌, ◌==◌, ◌≡◌, refl, arith, not, ◌&&◌, ◌||◌, Bool, true, false, if◌then◌else◌, List, [], ◌∷◌,
  ◌++◌, map, any, length, take, drop, Option, none, some, Bool-cases, Option-cases, inl, inr, ltb,
}
use software_bus.Text.{Text, codes, text_eq}
use software_bus.RequestReply.{starts_with}

-- What stands after the last separator.
unfoldable pub basename : Text → Text
basename [] = []
basename (c ∷ s) = let rest = basename s in if any (λ d. d == b'/') (c ∷ s) then rest else c ∷ s

abbrev pub with_slashes : Text → Text
with_slashes = map (λ c. if c == b'\\' then b'/' else c)

abbrev pub ends_with : Text → Text → Bool
ends_with suffix s =
    not (ltb (length s) (length suffix)) && text_eq (drop (length s - length suffix) s) suffix

abbrev pub without_suffix : Text → Text → Text
without_suffix suffix name =
    if ends_with suffix name then take (length name - length suffix) name else name

-- `_basename_stem`
abbrev pub basename_stem : (Text → Text) → Text → Text
basename_stem lower path =
    without_suffix (codes ".py")
      (without_suffix (codes ".exe") (lower (basename (with_slashes path))))

abbrev pub kind_of : Text → Option Text
kind_of name =
    if text_eq name (codes "bl_server")
    then some (codes "bl_server")
    else if text_eq name (codes "ps_server")
    then some (codes "ps_server")
    else none

-- The module after `-m`, the empty text where nothing follows, and `none` without a `-m`.
unfoldable pub module_of : List Text → Option Text
module_of [] = none
module_of (arg ∷ args) =
    let rest = module_of args in if text_eq arg (codes "-m") then some (first_of args) else rest
  where
    first_of : List Text → Text
    first_of [] = []
    first_of (a ∷ more) = a

abbrev pub kind_of_module : Text → Option Text
kind_of_module name =
    if text_eq name (codes "software_bus.bl_server")
    then some (codes "bl_server")
    else if text_eq name (codes "software_bus.ps_server")
    then some (codes "ps_server")
    else none

-- The first argument that is not an option.
unfoldable pub script_of : List Text → Option Text
script_of [] = none
script_of (arg ∷ args) =
    let rest = script_of args in if starts_with (codes "-") arg then rest else some arg

abbrev pub kind_of_script : (Text → Text) → Option Text → Option Text
kind_of_script lower none = none
kind_of_script lower (some script) = kind_of (basename_stem lower script)

abbrev pub kind_of_arguments : (Text → Text) → Option Text → List Text → Option Text
kind_of_arguments lower none args = kind_of_script lower (script_of args)
kind_of_arguments lower (some name) args = kind_of_module name

abbrev pub is_python : Text → Bool
is_python program = starts_with (codes "python") program || text_eq program (codes "py")

abbrev pub kind_of_program : (Text → Text) → Text → Option Text → List Text → Option Text
kind_of_program lower program (some kind) args = some kind
kind_of_program lower program none args =
    if is_python program then kind_of_arguments lower (module_of args) args else none

unfoldable pub node_kind : (Text → Text) → List Text → Option Text
node_kind lower [] = none
node_kind lower (command ∷ args) =
    let program = basename_stem lower command in
    kind_of_program lower program (kind_of program) args
