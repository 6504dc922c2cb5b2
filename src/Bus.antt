-- ===== src/Bus.antt =====
-- The native side's surroundings: the sdbus-c++ calls and Dart_PostCObject_DL, which are not part of
-- the repository. What packagekitd answers is a parameter; what the bridge sends is recorded.
pub mod Signals
use Prim.Native.String.{String}
use packagekit_dart.Base.{◌≡◌, refl, ◌⊎◌, inl, inr, ℕ, Bool, List, [], ◌∷◌, ◌++◌}

-- sdbus::Variant, at the types that the bridge sends, asks for or may be handed instead.
pub data Variant : Type 0 where
  nothing : Variant
  text : List ℕ → Variant
  object_path : List ℕ → Variant
  uint32 : ℕ → Variant
  uint64 : ℕ → Variant
  truth : Bool → Variant
  texts : List (List ℕ) → Variant

pub record MethodCall : Type 0 where
  pub destination : String
  pub path : List ℕ
  pub interface_name : String
  pub method : String
  pub arguments : List Variant

-- An exception of the C++ library, which is no sdbus::Error.
pub data StdException : Type 0 where
  length_error : StdException

-- `thrown` is an sdbus::Error with its message, `raised` another exception; `undefined` is undefined
-- behaviour.
pub data Outcome {ℓ} (A : Type ℓ) : Type ℓ where
  returned : A → Outcome A
  thrown : List ℕ → Outcome A
  raised : StdException → Outcome A
  undefined : Outcome A

pub Outcome-cases {ℓ} :
    {A : Type ℓ} (o : Outcome A)
    → ((a : A) × (o ≡ returned a))
      ⊎ ((e : List ℕ) × (o ≡ thrown e))
      ⊎ ((x : StdException) × (o ≡ raised x))
      ⊎ (o ≡ undefined)
Outcome-cases (returned a) = inl (a, refl)
Outcome-cases (thrown e) = inr (inl (e, refl))
Outcome-cases (raised x) = inr (inr (inl (x, refl)))
Outcome-cases undefined = inr (inr (inr refl))

-- The system bus and the daemon behind it. An answer may depend on the calls made before.
pub record SystemBus : Type 0 where
  pub connects : Outcome (Unit {0})
  pub answer : List MethodCall → MethodCall → Outcome Variant
  pub type_error : List ℕ

-- PkTransactionBridge and PkManager as objects. `path` is that of the proxy, and `connection` the
-- manager whose connection the proxy was made on.
pub record PkTransactionBridge : Type 0 where
  pub connection : ℕ
  pub path : List ℕ
  pub port : ℕ

pub record PkManager : Type 0 where
  pub events_port : ℕ

-- What the destructors do before the members of the object at an address are released.
pub data Teardown : Type 0 where
  unregister_proxy leave_event_loop join_event_thread : ℕ → Teardown

-- The messages posted to Dart ports, the method calls made and the destructors' steps, oldest first,
-- and the live objects.
pub record World : Type 0 where
  pub posts : List (ℕ × List ℕ)
  pub calls : List MethodCall
  pub teardown : List Teardown
  pub transactions : List (ℕ × PkTransactionBridge)
  pub managers : List (ℕ × PkManager)
  pub next_address : ℕ

abbrev pub M : Type 0 → Type 0
M A = World → Outcome A × World

abbrev pub after : {A B : Type 0} → (A → M B) → Outcome A → M B
after f (returned a) w = f a w
after f (thrown e) w = (thrown e, w)
after f (raised x) w = (raised x, w)
after f undefined w = (undefined, w)

infixl 5 ◌>>=◌ ◌>>◌
abbrev pub ◌>>=◌ : {A B : Type 0} → M A → (A → M B) → M B
◌>>=◌ m f w = let (r, w') = m w in after f r w'

abbrev pub ◌>>◌ : {B : Type 0} → M (Unit {0}) → M B → M B
m >> k = m >>= λ _. k

abbrev pub pure : {A : Type 0} → A → M A
pure a w = (returned a, w)

abbrev pub throw : {A : Type 0} → List ℕ → M A
throw e w = (thrown e, w)

-- Dart_PostCObject_DL of a kUint8 typed data object. Its result is not looked at.
abbrev pub post_cobject : ℕ → List ℕ → M (Unit {0})
post_cobject port bytes w = (returned tt, record w { posts = w.posts ++ ((port, bytes) ∷ []) })

abbrev pub tear_down : Teardown → M (Unit {0})
tear_down step w = (returned tt, record w { teardown = w.teardown ++ (step ∷ []) })

module _ (bus : SystemBus) where
  -- proxy->callMethod(method).onInterface(interface).withArguments(...), with its reply.
  unfoldable pub call_method : String → List ℕ → String → String → List Variant → M Variant
  call_method destination path interface_name method arguments w =
      let call : MethodCall = record {
        path = path;
        destination = destination;
        interface_name = interface_name;
        method = method;
        arguments = arguments;
      } in
      (bus.answer w.calls call, record w { calls = w.calls ++ (call ∷ []) })

  -- Variant::get<T>().
  abbrev pub get_text : Variant → Outcome (List ℕ)
  get_text (text s) = returned s
  get_text _ = thrown bus.type_error

  abbrev pub get_texts : Variant → Outcome (List (List ℕ))
  get_texts (texts s) = returned s
  get_texts _ = thrown bus.type_error

  abbrev pub get_uint32 : Variant → Outcome ℕ
  get_uint32 (uint32 n) = returned n
  get_uint32 _ = thrown bus.type_error

  abbrev pub get_uint64 : Variant → Outcome ℕ
  get_uint64 (uint64 n) = returned n
  get_uint64 _ = thrown bus.type_error

  abbrev pub get_truth : Variant → Outcome Bool
  get_truth (truth b) = returned b
  get_truth _ = thrown bus.type_error

  abbrev pub get_object_path : Variant → Outcome (List ℕ)
  get_object_path (object_path s) = returned s
  get_object_path _ = thrown bus.type_error

abbrev pub lift : {A : Type 0} → Outcome A → M A
lift r w = (r, w)
