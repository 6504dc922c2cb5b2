-- ===== src/Dart/Client/Initialization.antt =====
-- lib/src/packagekit_client.dart: the static flag with which `connect` initializes the Dart API of the
-- native library before the first connection.
use packagekit_dart.Base.{ℕ, ◌≡◌, refl, ap, Bool, true, false, Option, List, [], ◌∷◌}
use packagekit_dart.Bus.{
  M, Outcome, returned, thrown, raised, undefined, ◌>>=◌, ◌>>◌, pure, after, SystemBus, World,
}
use packagekit_dart.Dart.Bindings.{init}
use packagekit_dart.Dart.Client.{PkClient, connect}

module _ (bus : SystemBus) (initialize_api_dl : ℕ → M (Unit {0})) (api_data : ℕ) where
  -- `_initialized`, after the test at the start of `connect`.
  unfoldable pub ensure_initialized : Bool → M Bool
  ensure_initialized true = pure true
  ensure_initialized false = init initialize_api_dl api_data >> pure true

  -- The whole of `connect`, with the flag before and after it.
  unfoldable pub connect_with : Bool → ℕ → Bool → M (Bool × Option PkClient)
  unfolding ensure_initialized connect
  connect_with initialized port interactive = do
    flag ← ensure_initialized initialized
    client ← connect bus port interactive
    pure (flag, client)

  unfoldable pub connect_each : Bool → List (ℕ × Bool) → M (List (Option PkClient))
  unfolding connect_with
  connect_each initialized [] = pure []
  connect_each initialized ((port, interactive) ∷ rest) = do
    r ← connect_with initialized port interactive
    clients ← connect_each r.0 rest
    pure (r.1 ∷ clients)

-- The connections alone.
unfoldable pub connect_only : SystemBus → List (ℕ × Bool) → M (List (Option PkClient))
unfolding connect
connect_only bus [] = pure []
connect_only bus ((port, interactive) ∷ rest) = do
  client ← connect bus port interactive
  clients ← connect_only bus rest
  pure (client ∷ clients)

-- A call whose outcome is known.
abbrev given : {A : Type 0} → Outcome A → World → M A
given o w _ = (o, w)

abbrev flagged : Bool → Option PkClient → M (Bool × Option PkClient)
flagged flag client = pure (flag, client)

abbrev with_client : Option PkClient → List (Option PkClient) → M (List (Option PkClient))
with_client client clients = pure (client ∷ clients)

module _ (bus : SystemBus) (initialize_api_dl : ℕ → M (Unit {0})) (api_data : ℕ) where
  abbrev continue : List (ℕ × Bool) → Bool × Option PkClient → M (List (Option PkClient))
  continue rest (flag, client) =
      connect_each bus initialize_api_dl api_data flag rest >>= with_client client

  -- The rest of the connections, after the outcome of the first.
  step :
      (rest : List (ℕ × Bool)) (o : Outcome (Option PkClient)) (w : World)
      → ((w' : World)
          → connect_each bus initialize_api_dl api_data true rest w' ≡ connect_only bus rest w')
      → (given o w >>= flagged true >>= continue rest) w
        ≡ (given o w >>= λ client. (connect_only bus rest >>= with_client client)) w
  step rest (returned client) w ih = ap (λ r. after (with_client client) r.0 r.1) (ih w)
  step rest (thrown e) w ih = refl
  step rest (raised x) w ih = refl
  step rest undefined w ih = refl

  connected :
      (cs : List (ℕ × Bool)) (w : World)
      → connect_each bus initialize_api_dl api_data true cs w ≡ connect_only bus cs w
  unfolding connect_each connect_only
  connected [] w = refl
  connected ((port, interactive) ∷ rest) w =
      let (o, w') = connect bus port interactive w in step rest o w' (connected rest)

  first :
      (port : ℕ) (interactive : Bool) (rest : List (ℕ × Bool)) (o : Outcome (Unit {0})) (w : World)
      → (given o w
            >>= (λ _. pure true)
            >>= (λ flag. (connect bus port interactive >>= flagged flag))
            >>= continue rest)
          w
        ≡ (given o w >>= λ _. connect_only bus ((port, interactive) ∷ rest)) w
  unfolding connect_each connect_only
  first port interactive rest (returned u) w = connected ((port, interactive) ∷ rest) w
  first port interactive rest (thrown e) w = refl
  first port interactive rest (raised x) w = refl
  first port interactive rest undefined w = refl

  -- However many clients are connected one after the other, the Dart API of the native library is
  -- initialized once, before the first connection, and if that does not return, no connection is
  -- made.
  pub connect_each_lem :
      (c : ℕ × Bool) (rest : List (ℕ × Bool)) (w : World)
      → connect_each bus initialize_api_dl api_data false (c ∷ rest) w
        ≡ (initialize_api_dl api_data >> connect_only bus (c ∷ rest)) w
  unfolding connect_each
  connect_each_lem c rest w = let (o, w') = initialize_api_dl api_data w in first c.0 c.1 rest o w'
