-- ===== src/Bus/Signals.antt =====
-- Signals that come in over D-Bus, and the handlers that sdbus-c++ calls for them. What it reads of a
-- message's arguments is a parameter.
use Prim.Native.String.{String}
use packagekit_dart.Base.{ℕ, Bool, Option, none, some, List, [], ◌∷◌, ◌&&◌, if◌then◌else◌}
use packagekit_dart.Bus.{M, Variant, World}
use text.Mathlib.Text.{◌==◌ as str_eq}

-- The types that the handlers take their arguments at: u, s, b, as, a(uss) and a{sv}.
pub data ArgumentType : Type 0 where
  uint32_type text_type truth_type texts_type structs_type map_type : ArgumentType

abbrev pub Argument : ArgumentType → Type 0
Argument uint32_type = ℕ
Argument text_type = List ℕ
Argument truth_type = Bool
Argument texts_type = List (List ℕ)
Argument structs_type = List (ℕ × List ℕ × List ℕ)
Argument map_type = List (String × Variant)

abbrev pub Arguments : List ArgumentType → Type 0
Arguments [] = Unit {0}
Arguments (t ∷ ts) = Argument t × Arguments ts

-- A D-Bus signal as it comes in.
pub record SignalMessage : Type 0 where
  pub interface_name : String
  pub member : String
  pub signature : List ArgumentType
  pub arguments : Arguments signature

-- proxy_->uponSignal(member).onInterface(interface_name).call(handler).
pub record Registration : Type 0 where
  pub member : String
  pub interface_name : String
  pub signature : List ArgumentType
  pub handler : Arguments signature → M (Unit {0})

abbrev pub upon_signal :
    String → String → (ts : List ArgumentType) → (Arguments ts → M (Unit {0})) → Registration
upon_signal interface_name member ts handler = record {
  member = member;
  interface_name = interface_name;
  signature = ts;
  handler = handler;
}

abbrev pub signal_message :
    String → String → (ts : List ArgumentType) → Arguments ts → SignalMessage
signal_message interface_name member ts arguments = record {
  interface_name = interface_name;
  member = member;
  signature = ts;
  arguments = arguments;
}

abbrev pub Deserializer : Type 0
Deserializer = (ts : List ArgumentType) → SignalMessage → Option (Arguments ts)

-- `deserialize` reads a message's arguments at the types of a handler, if it can.
module _ (deserialize : Deserializer) where
  run_handler :
      (ts : List ArgumentType)
      → (Arguments ts → M (Unit {0}))
      → Option (Arguments ts)
      → Option (M (Unit {0}))
  run_handler ts handler none = none
  run_handler ts handler (some arguments) = some (handler arguments)

  -- The proxy's dispatch: the handler that is registered for the message's interface and member,
  -- at the arguments that it can read.
  unfoldable pub deliver : List Registration → SignalMessage → Option (M (Unit {0}))
  unfolding run_handler
  deliver [] m = none
  deliver (r ∷ rs) m =
      if str_eq r.interface_name m.interface_name && str_eq r.member m.member
      then run_handler r.signature r.handler (deserialize r.signature m)
      else deliver rs m

-- What a handler makes of the world. One that throws ends its own signal only.
unfoldable pub run : Option (M (Unit {0})) → World → World
run none w = w
run (some handler) w = (handler w).1
