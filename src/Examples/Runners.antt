-- ===== src/Examples/Runners.antt =====
-- The example's runner on two desktops.
use packagekit_dart.Base.{All, ℕ, ◌≡◌, refl, true, none, some, List, [], ◌∷◌, codes}
use packagekit_dart.Runner.{Desktop, Gtk, ◌>>=◌, ◌>>◌, pure, count}
use packagekit_dart.Runner.MyApplication.{
  MyApplicationClass, activate, add_title, use_header_bar, local_command_line, zeroed,
}
use packagekit_dart.Runner.Window.{shows, activate-first_frame, first_frame, IsPlaced}
use packagekit_dart.Runner.Launch.{local_command_line_lem}
use packagekit_dart.Runner.Disposal.{freed, disposals, disposals-local_command_line}

abbrev a_desktop : Desktop
a_desktop = record {
  windowing_x11 = true;
  is_x11_screen = λ window. true;
  window_manager_name = λ window. some "i3";
  toplevel = λ widget. 1;
  registration_error = none;
}

abbrev a_broken_desktop : Desktop
a_broken_desktop = record a_desktop { registration_error = some (codes "no bus") }

abbrev an_argv : List (List ℕ)
an_argv = codes "catalog" ∷ codes "--verbose" ∷ []

-- The class's command line, then the end of the application.
abbrev a_run : MyApplicationClass → List (List ℕ) → Gtk ℕ
a_run c argv = c.local_command_line argv >>= λ r. c.shutdown >> (c.dispose >> pure r.1)

a_desktop-IsPlaced : All (IsPlaced a_desktop) (activate a_desktop zeroed).1.calls
unfolding activate add_title use_header_bar
a_desktop-IsPlaced = (tt, (tt, (tt, (tt, (tt, (tt, (tt, (tt, (refl, (tt, (tt, (tt, tt))))))))))))

activate-first_frame_example :
    (count (shows 1) (activate a_desktop zeroed).1.calls ≡ 0)
    × (count
          (shows 1)
          ((activate a_desktop >>= λ _.
              first_frame a_desktop (activate a_desktop zeroed).1.last_object)
            zeroed).1.calls
        ≡ 1)
unfolding count
activate-first_frame_example = activate-first_frame a_desktop zeroed a_desktop-IsPlaced refl

local_command_line_lem_example : (local_command_line a_broken_desktop an_argv zeroed).0 ≡ (true, 1)
local_command_line_lem_example = (local_command_line_lem a_broken_desktop an_argv zeroed).0

disposals-local_command_line_example :
    freed (disposals 2 (local_command_line a_desktop an_argv zeroed).1).1.calls
    ≡ (codes "--verbose" ∷ []) ∷ []
unfolding freed
disposals-local_command_line_example = disposals-local_command_line a_desktop 1 an_argv zeroed
