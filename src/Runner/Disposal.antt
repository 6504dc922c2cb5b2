-- ===== src/Runner/Disposal.antt =====
-- The end of the runner: `my_application_dispose`, which GObject may call more than once.
use packagekit_dart.Base.{
  ℕ, zero, suc, ◌≡◌, refl, ◌∙◌, Bool, true, false, Option, none, some, List, [], ◌∷◌, ◌++◌,
  append-nil, drop,
}
use packagekit_dart.Runner.{GtkCall, strfreev, Desktop, Application, Gtk, ◌>>◌, pure}
use packagekit_dart.Runner.MyApplication.{
  startup, add_title, activate, registered, local_command_line, clear_arguments, dispose,
}
use packagekit_dart.Runner.Launch.{local_command_line_lem}

-- The string arrays that are freed, call by call.
unfoldable pub freed : List GtkCall → List (List (List ℕ))
freed [] = []
freed (strfreev strings ∷ calls) = strings ∷ freed calls
freed (_ ∷ calls) = freed calls

freed-append : (xs ys : List GtkCall) → freed (xs ++ ys) ≡ freed xs ++ freed ys
unfolding freed
freed-append [] ys = refl
freed-append (strfreev strings ∷ xs) ys = rw (freed-append xs ys)
freed-append (_ ∷ xs) ys = freed-append xs ys

unfoldable pub disposals : ℕ → Gtk (Unit {0})
disposals zero = pure tt
disposals (suc n) = dispose >> disposals n

abbrev held : Option (List (List ℕ)) → List (List (List ℕ))
held none = []
held (some strings) = strings ∷ []

clear_arguments-freed :
    (o : Option (List (List ℕ))) (s : Application)
    → freed (clear_arguments o s).1.calls ≡ freed s.calls ++ held o
unfolding clear_arguments freed
clear_arguments-freed none s = simp append-nil
clear_arguments-freed (some strings) s = simp freed-append

clear_arguments-none :
    (o : Option (List (List ℕ))) (s : Application)
    → s.dart_entrypoint_arguments ≡ o
    → (clear_arguments o s).1.dart_entrypoint_arguments ≡ none
unfolding clear_arguments
clear_arguments-none none s e = e
clear_arguments-none (some strings) s e = refl

dispose-freed :
    (s : Application)
    → freed (dispose s).1.calls ≡ freed s.calls ++ held s.dart_entrypoint_arguments
unfolding dispose freed
dispose-freed s =
    simp (freed-append, append-nil, clear_arguments-freed s.dart_entrypoint_arguments s)

dispose-none : (s : Application) → (dispose s).1.dart_entrypoint_arguments ≡ none
unfolding dispose
dispose-none s = clear_arguments-none s.dart_entrypoint_arguments s refl

disposals_none :
    (n : ℕ) (s : Application)
    → s.dart_entrypoint_arguments ≡ none
    → freed (disposals n s).1.calls ≡ freed s.calls
unfolding disposals
disposals_none zero s e = refl
disposals_none (suc n) s e =
    disposals_none n (dispose s).1 (dispose-none s) ∙ (dispose-freed s ∙ simp (e, append-nil))

module _ (d : Desktop) where
  add_title-freed :
      (s : Application) (bar : Bool) (window : ℕ)
      → freed (add_title d bar window s).1.calls ≡ freed s.calls
  unfolding add_title freed
  add_title-freed s true window = simp (freed-append, append-nil)
  add_title-freed s false window = simp (freed-append, append-nil)

  registered-freed :
      (error : Option (List ℕ)) (s : Application)
      → freed (registered d error s).1.calls ≡ freed s.calls
  unfolding registered startup activate freed
  registered-freed none s = simp (freed-append, append-nil, add_title-freed)
  registered-freed (some message) s = simp (freed-append, append-nil)

  -- After the command line was handled, however often the application is disposed of, its copy of
  -- the arguments is freed exactly once, whether it could be registered or not.
  pub disposals-local_command_line :
      (n : ℕ) (argv : List (List ℕ)) (s : Application)
      → freed (disposals (suc n) (local_command_line d argv s).1).1.calls
        ≡ freed s.calls ++ (drop 1 argv ∷ [])
  unfolding disposals local_command_line
  disposals-local_command_line n argv s =
      let s' = (local_command_line d argv s).1 in
      let kept = (local_command_line_lem d argv s).3 in
      disposals_none n (dispose s').1 (dispose-none s')
      ∙ (dispose-freed s' ∙ simp (kept, registered-freed))
