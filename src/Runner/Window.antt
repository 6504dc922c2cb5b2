-- ===== src/Runner/Window.antt =====
-- The window that `my_application_activate` makes, and when it is shown.
use Prim.Native.String.{String}
use text.Mathlib.TextEquality.{eq_iff}
use packagekit_dart.Base.{
  ℕ, zero, List, [], ◌∷◌, ◌++◌, All, ap, ◌∙◌, suc, ◌+◌, ◌≡◌, ◌≢◌, ◌↔◌, refl, Bool, true, false,
  Option, none, some, ◌≤◌, arith, ◌==◌, if◌then◌else◌,
}
use packagekit_dart.Runner.{
  GtkCall, widget_show, application_window_new, create, window_set_titlebar, Desktop, Application,
  ◌>>=◌, ◌>>◌, pure, Gtk, container_add, connect_first_frame, count, count-append,
}
use packagekit_dart.Runner.MyApplication.{
  use_header_bar, add_title, activate, first_frame_cb, strcmp0_equal,
}

-- A call that shows a widget.
abbrev pub shows : ℕ → GtkCall → ℕ
shows widget (widget_show w) = if w == widget then 1 else 0
shows widget _ = 0

-- A call that connects `first_frame_cb` to the first frame of a view.
abbrev pub connects : ℕ → GtkCall → ℕ
connects view (connect_first_frame v) = if v == view then 1 else 0
connects view _ = 0

abbrev times : ℕ → Gtk (Unit {0}) → Gtk (Unit {0})
times zero m = pure tt
times (suc n) m = m >> times n m

-- A view emits first-frame: each callback that was connected to it runs.
abbrev pub first_frame : Desktop → ℕ → Gtk (Unit {0})
first_frame d view s = times (count (connects view) s.calls) (first_frame_cb d view) s

-- GTK's side of adding a widget to a window: the window is the widget's toplevel.
abbrev pub IsPlaced : Desktop → GtkCall → Type 0
IsPlaced d (container_add window widget) = d.toplevel widget ≡ window
IsPlaced d _ = Unit {0}

All-init : {A : Type 0} (P : A → Type 0) (xs : List A) (x : A) → All P (xs ++ (x ∷ [])) → All P xs
All-init P [] x h = tt
All-init P (y ∷ ys) x h = (h.0, All-init P ys x h.1)

All-last : {A : Type 0} (P : A → Type 0) (xs : List A) (x : A) → All P (xs ++ (x ∷ [])) → P x
All-last P [] x h = h.0
All-last P (y ∷ ys) x h = All-last P ys x h.1

-- A call that gives a window a header bar for its title.
abbrev pub sets_titlebar : GtkCall → ℕ
sets_titlebar (window_set_titlebar window bar) = 1
sets_titlebar _ = 0

module _ (d : Desktop) (s : Application) where
  add_title-shows :
      (bar : Bool) (window : ℕ)
      → window ≡ s.last_object
      → count (shows window) (add_title d bar window s).1.calls ≡ count (shows window) s.calls
  unfolding add_title count
  add_title-shows true window e = simp count-append (ground arith)
  add_title-shows false window e = simp count-append (ground arith)

  add_title-connects :
      (view : ℕ) (bar : Bool) (window : ℕ)
      → count (connects view) (add_title d bar window s).1.calls ≡ count (connects view) s.calls
  unfolding add_title count
  add_title-connects view true window = simp count-append (omega arith)
  add_title-connects view false window = simp count-append (omega arith)

  add_title-last_object :
      (bar : Bool) (window : ℕ) → s.last_object ≤ (add_title d bar window s).1.last_object
  unfolding add_title
  add_title-last_object true window = omega arith
  add_title-last_object false window = omega arith

  add_title-sets_titlebar :
      (bar : Bool) (window : ℕ)
      → count sets_titlebar (add_title d bar window s).1.calls
        ≡ count sets_titlebar s.calls + (if bar then 1 else 0)
  unfolding add_title count
  add_title-sets_titlebar true window = simp count-append (omega arith)
  add_title-sets_titlebar false window = simp count-append (omega arith)

first_frame-shows :
    (d : Desktop) (s : Application) (view window : ℕ)
    → count (connects view) s.calls ≡ 1
    → d.toplevel view ≡ window
    → count (shows window) (first_frame d view s).1.calls ≡ count (shows window) s.calls + 1
unfolding first_frame_cb count
first_frame-shows d s view window once inside = rw once (simp count-append (ground (arith, inside)))

module _ (d : Desktop) (s : Application) where
  -- The application with its new window.
  opened : Application
  opened = (create application_window_new s).1

  activate-shows :
      count (shows (suc s.last_object)) (activate d s).1.calls
      ≡ count (shows (suc s.last_object)) s.calls
  unfolding activate count opened
  activate-shows =
      let bar = use_header_bar d (suc s.last_object) in
      let kept = add_title-shows d opened bar (suc s.last_object) refl in
      let grown = add_title-last_object d opened bar (suc s.last_object) in
      simp (count-append, kept) (ground (arith, grown))

  activate-sets_titlebar :
      count sets_titlebar (activate d s).1.calls
      ≡ count sets_titlebar s.calls + (if use_header_bar d (suc s.last_object) then 1 else 0)
  unfolding activate count
  activate-sets_titlebar = simp (count-append, add_title-sets_titlebar) (omega arith)

  -- The view that activation makes is its last object.
  view : ℕ
  unfolding activate
  view = (activate d s).1.last_object

  activate-connects :
      count (connects view) (activate d s).1.calls ≡ count (connects view) s.calls + 1
  unfolding activate count opened view
  activate-connects =
      let bar = use_header_bar d (suc s.last_object) in
      let v = (activate d s).1.last_object in
      let kept = add_title-connects d opened v bar (suc s.last_object) in
      simp (count-append, kept) (ground arith)

  activate-IsPlaced : All (IsPlaced d) (activate d s).1.calls → d.toplevel view ≡ suc s.last_object
  unfolding activate opened view
  activate-IsPlaced placed =
      All-last (IsPlaced d) _ _
        (All-init (IsPlaced d) _ _ (All-init (IsPlaced d) _ _ (All-init (IsPlaced d) _ _ placed)))

  -- If a widget's toplevel is the window that it was added to, and nothing was connected before to the
  -- view that activation makes: activation does not show the window that it makes, and the first
  -- frame of the view then shows it, once.
  pub activate-first_frame :
      All (IsPlaced d) (activate d s).1.calls
      → count (connects (activate d s).1.last_object) s.calls ≡ 0
      → (count (shows (suc s.last_object)) (activate d s).1.calls
          ≡ count (shows (suc s.last_object)) s.calls)
        × (count
              (shows (suc s.last_object))
              ((activate d >>= λ _. first_frame d (activate d s).1.last_object) s).1.calls
            ≡ count (shows (suc s.last_object)) s.calls + 1)
  unfolding view
  activate-first_frame placed unconnected =
      let once = activate-connects ∙ ap (λ n. n + 1) unconnected in
      (
        activate-shows,
        first_frame-shows d (activate d s).1 view (suc s.last_object) once
              (activate-IsPlaced placed)
            ∙ ap (λ n. n + 1) activate-shows,
      )

strcmp0_equal_iff :
    (name : Option String) (s : String) → (strcmp0_equal name s ≡ true) ↔ (name ≡ some s)
strcmp0_equal_iff none s = ground arith
strcmp0_equal_iff (some t) s = ground (arith, eq_iff t s)

module _ (d : Desktop) (s : Application) where
  use_header_bar-cases :
      (window : ℕ)
      → (use_header_bar d window ≡ false) ↔ (
          (d.windowing_x11 ≡ true)
          × (d.is_x11_screen window ≡ true)
          × (d.window_manager_name window ≢ some "GNOME Shell"))
  unfolding use_header_bar
  use_header_bar-cases window =
      ground (arith, strcmp0_equal_iff (d.window_manager_name window) "GNOME Shell")

  -- Activation leaves the window with a traditional title bar exactly if the build has X11, the
  -- window's screen is one of X11 and its window manager is not named GNOME Shell.
  pub activate-header_bar :
      (count sets_titlebar (activate d s).1.calls ≡ count sets_titlebar s.calls) ↔ (
        (d.windowing_x11 ≡ true)
        × (d.is_x11_screen (suc s.last_object) ≡ true)
        × (d.window_manager_name (suc s.last_object) ≢ some "GNOME Shell"))
  activate-header_bar =
      ground (arith, activate-sets_titlebar d s, use_header_bar-cases (suc s.last_object))
