-- ===== src/Runner.antt =====
-- example/packagekit_catalog/linux: the Linux runner of the example, on the calls that it makes of
-- GTK and of the Flutter engine, which are not part of the repository. What they answer is a
-- parameter; the calls with an effect are recorded, oldest first. Objects are their addresses.
pub mod MyApplication
pub mod Window
pub mod Launch
pub mod Disposal
use Prim.Native.String.{String}
use packagekit_dart.Base.{ℕ, suc, Bool, Option, none, some, List, [], ◌∷◌, ◌++◌, ◌+◌, ◌≡◌, arith}

pub data GtkCall : Type 0 where
  set_prgname : String → GtkCall
  object_new : ℕ → String → Bool → GtkCall
  application_window_new header_bar_new dart_project_new : ℕ → GtkCall
  view_new : ℕ → ℕ → GtkCall
  widget_show widget_realize widget_grab_focus : ℕ → GtkCall
  header_bar_set_title window_set_title : ℕ → String → GtkCall
  header_bar_set_show_close_button : ℕ → Bool → GtkCall
  window_set_titlebar container_add : ℕ → ℕ → GtkCall
  window_set_default_size : ℕ → ℕ → ℕ → GtkCall
  set_dart_entrypoint_arguments : ℕ → Option (List (List ℕ)) → GtkCall
  view_set_background_color : ℕ → String → GtkCall
  connect_first_frame : ℕ → GtkCall
  warning : List ℕ → GtkCall
  strfreev : List (List ℕ) → GtkCall
  parent_startup parent_shutdown parent_dispose : GtkCall

-- What the desktop answers: whether the build has X11, whether a window's screen is an X11 screen,
-- the window manager's name, which widget stands at the top of another, and the error with which
-- the application cannot be registered, if any.
pub record Desktop : Type 0 where
  pub windowing_x11 : Bool
  pub is_x11_screen : ℕ → Bool
  pub window_manager_name : ℕ → Option String
  pub toplevel : ℕ → ℕ
  pub registration_error : Option (List ℕ)

-- `struct _MyApplication`, with the calls made so far and the address of the last object.
pub record Application : Type 0 where
  pub dart_entrypoint_arguments : Option (List (List ℕ))
  pub calls : List GtkCall
  pub last_object : ℕ

abbrev pub Gtk : Type 0 → Type 0
Gtk A = Application → A × Application

infixl 5 ◌>>=◌ ◌>>◌
abbrev pub ◌>>=◌ : {A B : Type 0} → Gtk A → (A → Gtk B) → Gtk B
◌>>=◌ m f s = let (a, s') = m s in f a s'

abbrev pub ◌>>◌ : {B : Type 0} → Gtk (Unit {0}) → Gtk B → Gtk B
m >> k = m >>= λ _. k

abbrev pub pure : {A : Type 0} → A → Gtk A
pure a s = (a, s)

abbrev pub call : GtkCall → Gtk (Unit {0})
call c s = (tt, record s { calls = s.calls ++ (c ∷ []) })

-- A call that makes an object, at the next address.
abbrev pub create : (ℕ → GtkCall) → Gtk ℕ
create c s = (
  suc s.last_object,
  record s { calls = s.calls ++ (c (suc s.last_object) ∷ []); last_object = suc s.last_object },
)

-- How often the calls do what is counted.
unfoldable pub count : (GtkCall → ℕ) → List GtkCall → ℕ
count f [] = 0
count f (c ∷ calls) = f c + count f calls

pub count-append :
    (f : GtkCall → ℕ) (xs ys : List GtkCall) → count f (xs ++ ys) ≡ count f xs + count f ys
unfolding count
count-append f [] ys = omega arith
count-append f (c ∷ xs) ys = omega (arith, count-append f xs ys)
