-- ===== src/Runner/MyApplication.antt =====
-- runner/my_application.cc, runner/main.cc and flutter/generated_plugin_registrant.cc of
-- example/packagekit_catalog/linux: the application's virtual functions, and the program's start.
use Prim.Native.String.{String}
use packagekit_dart.Base.{ℕ, Bool, true, false, Option, none, some, List, [], drop, if◌then◌else◌}
use packagekit_dart.Runner.{
  set_prgname, object_new, application_window_new, header_bar_new, dart_project_new, view_new,
  widget_show, widget_realize, widget_grab_focus, header_bar_set_title, window_set_title,
  header_bar_set_show_close_button, window_set_titlebar, container_add, window_set_default_size,
  set_dart_entrypoint_arguments, view_set_background_color, connect_first_frame, warning, strfreev,
  parent_startup, parent_shutdown, parent_dispose, Desktop, Application, Gtk, ◌>>=◌, ◌>>◌, pure,
  call, create,
}
use text.Mathlib.Text.{◌==◌ as str_eq}

-- g_strcmp0(a, b) == 0, where a may be NULL.
abbrev pub strcmp0_equal : Option String → String → Bool
strcmp0_equal none s = false
strcmp0_equal (some t) s = str_eq t s

-- No plugin of the example has native code.
abbrev pub fl_register_plugins : ℕ → Gtk (Unit {0})
fl_register_plugins registry = pure tt

unfoldable pub startup : Gtk (Unit {0})
startup = call parent_startup

unfoldable pub shutdown : Gtk (Unit {0})
shutdown = call parent_shutdown

-- g_clear_pointer(&self->dart_entrypoint_arguments, g_strfreev).
unfoldable pub clear_arguments : Option (List (List ℕ)) → Gtk (Unit {0})
clear_arguments none = pure tt
clear_arguments (some arguments) = do
  call (strfreev arguments)
  λ s. (tt, record s { dart_entrypoint_arguments = none })

unfoldable pub dispose : Gtk (Unit {0})
unfolding clear_arguments
dispose = do
  arguments ← λ s. (s.dart_entrypoint_arguments, s)
  clear_arguments arguments
  call parent_dispose

module _ (desktop : Desktop) where
  unfoldable pub first_frame_cb : ℕ → Gtk (Unit {0})
  first_frame_cb view = call (widget_show (desktop.toplevel view))

  -- The decision on the header bar, for a window's screen.
  unfoldable pub use_header_bar : ℕ → Bool
  use_header_bar window =
      if desktop.windowing_x11
      then if desktop.is_x11_screen window
        then strcmp0_equal (desktop.window_manager_name window) "GNOME Shell"
        else true
      else true

  unfoldable pub add_title : Bool → ℕ → Gtk (Unit {0})
  add_title true window = do
    header_bar ← create header_bar_new
    call (widget_show header_bar)
    call (header_bar_set_title header_bar "PackageKit Catalog")
    call (header_bar_set_show_close_button header_bar true)
    call (window_set_titlebar window header_bar)
  add_title false window = call (window_set_title window "PackageKit Catalog")

  unfoldable pub activate : Gtk (Unit {0})
  unfolding use_header_bar add_title
  activate = do
    window ← create application_window_new
    add_title (use_header_bar window) window
    call (window_set_default_size window 1280 800)
    project ← create dart_project_new
    arguments ← λ s. (s.dart_entrypoint_arguments, s)
    call (set_dart_entrypoint_arguments project arguments)
    view ← create (view_new project)
    call (view_set_background_color view "#000000")
    call (widget_show view)
    call (container_add window view)
    call (connect_first_frame view)
    call (widget_realize view)
    fl_register_plugins view
    call (widget_grab_focus view)

  -- The rest of `my_application_local_command_line` from the attempt to register: its result, and the
  -- exit status. Registering, when it succeeds, runs the application's startup.
  unfoldable pub registered : Option (List ℕ) → Gtk (Bool × ℕ)
  unfolding activate startup
  registered (some message) = do call (warning message); pure (true, 1)
  registered none = do startup; activate; pure (true, 0)

  unfoldable pub local_command_line : List (List ℕ) → Gtk (Bool × ℕ)
  unfolding registered
  local_command_line arguments = do
    λ s. (tt, record s { dart_entrypoint_arguments = some (drop 1 arguments) })
    registered desktop.registration_error

-- The virtual functions that `my_application_class_init` installs.
pub record MyApplicationClass : Type 0 where
  pub activate : Gtk (Unit {0})
  pub local_command_line : List (List ℕ) → Gtk (Bool × ℕ)
  pub startup : Gtk (Unit {0})
  pub shutdown : Gtk (Unit {0})
  pub dispose : Gtk (Unit {0})

abbrev pub class_init : Desktop → MyApplicationClass
class_init desktop = record {
  activate = activate desktop;
  local_command_line = local_command_line desktop;
  startup = startup;
  shutdown = shutdown;
  dispose = dispose;
}

-- An object before `my_application_init`, which leaves its members null.
abbrev pub zeroed : Application
zeroed = record { dart_entrypoint_arguments = none; calls = []; last_object = 0 }

-- `application_id` is the APPLICATION_ID of the build. The flag makes the application non-unique.
unfoldable pub my_application_new : String → Gtk ℕ
my_application_new application_id = do
  call (set_prgname application_id)
  create (λ app. object_new app application_id true)

-- What my_application.h declares: the type of the application, by its class, and how to make one.
pub record MyApplicationType : Type 0 where
  pub get_class : Desktop → MyApplicationClass
  pub new : String → Gtk ℕ

abbrev pub my_application : MyApplicationType
my_application = record { get_class = class_init; new = my_application_new }

-- `application_run` is g_application_run, for an application of a class.
module _ (application_run : MyApplicationClass → List (List ℕ) → Gtk ℕ) where
  unfoldable pub main : String → Desktop → List (List ℕ) → Gtk ℕ
  unfolding my_application_new
  main application_id desktop argv = do
    app ← my_application.new application_id
    application_run (my_application.get_class desktop) argv
