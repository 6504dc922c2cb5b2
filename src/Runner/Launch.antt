-- ===== src/Runner/Launch.antt =====
-- The start of the runner: what `my_application_local_command_line` and `main` do with the command
-- line and with an application that cannot be registered.
use Prim.Native.String.{String}
use packagekit_dart.Base.{
  ℕ, ◌+◌, ◌≡◌, refl, ◌∙◌, ap, Bool, true, Option, none, some, List, [], ◌∷◌, ◌++◌, append-nil,
  false, arith, drop,
}
use packagekit_dart.Runner.{
  GtkCall, application_window_new, set_dart_entrypoint_arguments, Desktop, Application, Gtk, count,
  count-append,
}
use packagekit_dart.Runner.MyApplication.{
  MyApplicationClass, class_init, add_title, activate, startup, registered, local_command_line,
  main, my_application_new, zeroed,
}

-- A call that makes a window.
abbrev pub opens : GtkCall → ℕ
opens (application_window_new window) = 1
opens _ = 0

-- The arguments that are handed to Dart, call by call.
unfoldable pub passed : List GtkCall → List (Option (List (List ℕ)))
passed [] = []
passed (set_dart_entrypoint_arguments project arguments ∷ calls) = arguments ∷ passed calls
passed (_ ∷ calls) = passed calls

-- The exit status that a failure to register gives.
abbrev pub status_of : Option (List ℕ) → ℕ
status_of none = 0
status_of (some message) = 1

abbrev pub windows_of : Option (List ℕ) → ℕ
windows_of none = 1
windows_of (some message) = 0

abbrev pub passed_of : Option (List ℕ) → List (List ℕ) → List (Option (List (List ℕ)))
passed_of none argv = some (drop 1 argv) ∷ []
passed_of (some message) argv = []

passed-append : (xs ys : List GtkCall) → passed (xs ++ ys) ≡ passed xs ++ passed ys
unfolding passed
passed-append [] ys = refl
passed-append (set_dart_entrypoint_arguments project arguments ∷ xs) ys = rw (passed-append xs ys)
passed-append (_ ∷ xs) ys = passed-append xs ys

module _ (d : Desktop) (s : Application) where
  add_title-opens :
      (bar : Bool) (window : ℕ)
      → count opens (add_title d bar window s).1.calls ≡ count opens s.calls
  unfolding add_title count
  add_title-opens true window = simp count-append (omega arith)
  add_title-opens false window = simp count-append (omega arith)

  add_title-passed :
      (bar : Bool) (window : ℕ) → passed (add_title d bar window s).1.calls ≡ passed s.calls
  unfolding add_title passed
  add_title-passed true window = simp (passed-append, append-nil)
  add_title-passed false window = simp (passed-append, append-nil)

  add_title-arguments :
      (bar : Bool) (window : ℕ)
      → (add_title d bar window s).1.dart_entrypoint_arguments ≡ s.dart_entrypoint_arguments
  unfolding add_title
  add_title-arguments true window = refl
  add_title-arguments false window = refl

module _ (d : Desktop) (s : Application) where
  activate-opens : count opens (activate d s).1.calls ≡ count opens s.calls + 1
  unfolding activate count
  activate-opens = simp (count-append, add_title-opens) (omega arith)

  activate-passed :
      passed (activate d s).1.calls ≡ passed s.calls ++ (s.dart_entrypoint_arguments ∷ [])
  unfolding activate passed
  activate-passed = simp (passed-append, add_title-passed, append-nil, add_title-arguments)

  activate-arguments : (activate d s).1.dart_entrypoint_arguments ≡ s.dart_entrypoint_arguments
  unfolding activate
  activate-arguments = simp add_title-arguments

module _ (d : Desktop) where
  registered_lem :
      (error : Option (List ℕ)) (argv : List (List ℕ)) (s : Application)
      → s.dart_entrypoint_arguments ≡ some (drop 1 argv)
      → ((registered d error s).0 ≡ (true, status_of error))
        × (count opens (registered d error s).1.calls ≡ count opens s.calls + windows_of error)
        × (passed (registered d error s).1.calls ≡ passed s.calls ++ passed_of error argv)
        × ((registered d error s).1.dart_entrypoint_arguments ≡ some (drop 1 argv))
  unfolding registered startup count passed
  registered_lem none argv s e =
      let started = (startup s).1 in
      (
        refl,
        activate-opens d started ∙ simp count-append (omega arith),
        activate-passed d started ∙ simp (passed-append, append-nil, e),
        activate-arguments d started ∙ e,
      )
  registered_lem (some message) argv s e =
      (refl, simp count-append (omega arith), simp (passed-append, append-nil), e)

  -- The command line is always handled. If the application can be registered, the exit status is 0,
  -- one window is made, and Dart is handed the arguments without the first; if not, the exit status
  -- is 1, and no window is made and nothing handed to Dart. The application keeps the arguments
  -- without the first in both cases.
  pub local_command_line_lem :
      (argv : List (List ℕ)) (s : Application)
      → let error = d.registration_error in
        let (result, s') = local_command_line d argv s in
        (result ≡ (true, status_of error))
        × (count opens s'.calls ≡ count opens s.calls + windows_of error)
        × (passed s'.calls ≡ passed s.calls ++ passed_of error argv)
        × (s'.dart_entrypoint_arguments ≡ some (drop 1 argv))
  unfolding local_command_line
  local_command_line_lem argv s =
      registered_lem d.registration_error argv
        (record s { dart_entrypoint_arguments = some (drop 1 argv) }) refl

  -- If running an application gives the exit status of its class's `local_command_line` whenever
  -- that handles the command line, the program ends with status 0 if the application can be
  -- registered, and with status 1 if not.
  pub main-status :
      (application_run : MyApplicationClass → List (List ℕ) → Gtk ℕ) (application_id : String)
      (argv : List (List ℕ))
      → ((c : MyApplicationClass) (arguments : List (List ℕ)) (s : Application)
          → (c.local_command_line arguments s).0.0 ≡ true
          → (application_run c arguments s).0 ≡ (c.local_command_line arguments s).0.1)
      → (main application_run application_id d argv zeroed).0 ≡ status_of d.registration_error
  unfolding main
  main-status application_run application_id argv runs =
      let s = (my_application_new application_id zeroed).1 in
      let handled = (local_command_line_lem argv s).0 in
      runs (class_init d) argv s (ap (λ r. r.0) handled) ∙ ap (λ r. r.1) handled
