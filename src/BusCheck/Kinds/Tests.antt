-- ===== src/BusCheck/Kinds/Tests.antt =====
-- Command lines, as `node_kind` (software_bus/bus_check.py) reads them.
use software_bus.Prelude.{◌≡◌, refl, some, none, [], ◌∷◌}
use software_bus.Text.{Text, codes, text_eq}
use software_bus.BusCheck.Kinds.{node_kind, basename, module_of, script_of}

abbrev same : Text → Text
same s = s

node_kind_runs :
    (node_kind same (codes "/usr/bin/python3" ∷ codes "-m" ∷ codes "software_bus.ps_server" ∷ [])
      ≡ some (codes "ps_server"))
    × (node_kind same (codes "python" ∷ codes "-u" ∷ codes "/opt/bl_server.py" ∷ [])
        ≡ some (codes "bl_server"))
    × (node_kind same (codes "C:\\bl_server.exe" ∷ []) ≡ some (codes "bl_server"))
    × (node_kind same (codes "python" ∷ codes "-m" ∷ []) ≡ none)
unfolding node_kind basename module_of script_of text_eq
node_kind_runs = (refl, refl, refl, refl)
