-- ===== src/Controller/Inputs/Trust.antt =====
-- From evcc's messages to the decision: inputs.go, state.go and client.go of evcc, and policy.go.
use wallbox_homeautomation_g.Base.{
  List, String, [], arith, false, refl, true, ◌↔◌, ◌∙◌, ◌∷◌, ◌≡◌, ◌≢◌, ◌⊎◌,
}
use wallbox_homeautomation_g.Base.Int.{le_ℤ_iff, ◌≤ℤ◌}
use wallbox_homeautomation_g.Config.{Control}
use wallbox_homeautomation_g.Controller.Inputs.{inputs_from_snapshot, is_fresh, is_ready, is_stale}
use wallbox_homeautomation_g.Controller.Policy.{decide, new_decision, override_active, reset_timers}
use wallbox_homeautomation_g.Controller.Policy.Safety.{decide-enabled_needs}
use wallbox_homeautomation_g.Controller.State.{
  ControlState, State, Timers, failsafe, mode_off, stale_off,
}
use wallbox_homeautomation_g.Evcc.Client.{
  Callback, disconnect, handle, handle_all, on_connect, on_connection_lost, on_message,
}
use wallbox_homeautomation_g.Evcc.Store.{
  FloatMetric, Snapshot, Store, apply, apply_to, set_broker_connected,
}
use wallbox_homeautomation_g.Evcc.Topics.{Topics}
use wallbox_homeautomation_g.Go.Float.{Float}
use wallbox_homeautomation_g.Go.Time.{Time, since}

-- Messages, and further losses: all that can happen before the client connects again.
abbrev pub Unconnected : List Callback → Type 0
Unconnected [] = Unit {0}
Unconnected (on_connect ∷ cs) = ⊥
Unconnected (on_connection_lost ∷ cs) = Unconnected cs
Unconnected (disconnect ∷ cs) = Unconnected cs
Unconnected (on_message topic payload at ∷ cs) = Unconnected cs

module _ {ℓ} {W : Type ℓ} ⦃f : Float W⦄ where
  -- A metric received no longer ago than the stale timeout.
  pub record IsRecent (now : Time) (cfg : Control W) (m : FloatMetric W) : Type 0 where
    pub seen : m.seen ≡ true
    pub recent : since now m.at ≤ℤ cfg.stale_timeout

  pub record IsLive (now : Time) (cfg : Control W) (s : Snapshot W) : Type 0 where
    pub broker : s.broker_connected ≡ true
    pub online : (s.online.seen ≡ false) ⊎ (s.online.value ≡ true)
    pub grid : IsRecent now cfg s.grid
    pub pv : IsRecent now cfg s.pv

  is_fresh_iff :
      (now : Time) (cfg : Control W) (m : FloatMetric W)
      → (is_fresh now cfg m ≡ true) ↔ IsRecent now cfg m
  unfolding is_fresh
  is_fresh_iff now cfg m = ground (arith, le_ℤ_iff (since now m.at) cfg.stale_timeout)

  is_stale_iff :
      (now : Time) (s : Snapshot W) (cfg : Control W)
      → (is_stale now s cfg ≡ false) ↔ IsLive now cfg s
  unfolding is_stale
  is_stale_iff now s cfg = ground (arith, is_fresh_iff now cfg s.grid, is_fresh_iff now cfg s.pv)

  -- A decision on the inputs of a snapshot commands a mode other than "off" only if the broker is
  -- connected, evcc has not reported itself offline, grid and PV power arrived within the stale
  -- timeout, and, where no override is active, a vehicle's state of charge and connection were
  -- received and the vehicle is connected.
  pub decide-IsLive :
      (now : Time) (s : Snapshot W) (cfg : Control W) (ctrl : ControlState W) (st : State)
      (tm : Timers)
      → let inp = inputs_from_snapshot now s cfg ctrl in
        (decide now inp st tm cfg).desired_mode ≢ mode_off
        → IsLive now cfg s
          × (override_active now inp ≡ false
              → (s.vehicle_soc.seen ≡ true)
                × (s.connected.seen ≡ true)
                × (s.connected.value ≡ true))
  unfolding inputs_from_snapshot is_ready
  decide-IsLive now s cfg ctrl st tm h = ground (
    arith,
    decide-enabled_needs now (inputs_from_snapshot now s cfg ctrl) st tm cfg h,
    is_stale_iff now s cfg,
  )

  apply_to-broker :
      (t : Topics) (topic payload : String) (at : Time) (s : Snapshot W)
      → (apply_to t topic payload at s).0.broker_connected ≡ s.broker_connected
  unfolding apply_to
  apply_to-broker t topic payload at s = ground arith

  handle_all-broker :
      (cs : List Callback) (s : Store W)
      → Unconnected cs
      → s.snap.broker_connected ≡ false
      → (handle_all cs s).snap.broker_connected ≡ false
  unfolding handle_all handle set_broker_connected apply
  handle_all-broker [] s u h = h
  handle_all-broker (on_connect ∷ cs) s u h = absurd u
  handle_all-broker (on_connection_lost ∷ cs) s u h = refl
  handle_all-broker (disconnect ∷ cs) s u h = refl
  handle_all-broker (on_message topic payload at ∷ cs) s u h =
      apply_to-broker (handle_all cs s).topics topic payload at (handle_all cs s).snap
      ∙ handle_all-broker cs s u h

  lost_broker : (s : Store W) → (handle on_connection_lost s).snap.broker_connected ≡ false
  unfolding handle set_broker_connected
  lost_broker s = refl

  -- Once the broker connection is lost, and until the client connects again, every decision is the
  -- fail-safe: mode "off", both dwells forgotten, whatever messages still arrive, whatever override
  -- the operator has set and whatever the state was.
  pub lost_broker-failsafe :
      (cs : List Callback) (s : Store W) (now : Time) (cfg : Control W) (ctrl : ControlState W)
      (st : State) (tm : Timers)
      → Unconnected cs
      → let snap = (handle_all cs (handle on_connection_lost s)).snap in
        decide now (inputs_from_snapshot now snap cfg ctrl) st tm cfg
        ≡ new_decision failsafe reset_timers mode_off stale_off
  unfolding decide inputs_from_snapshot is_stale
  lost_broker-failsafe cs s now cfg ctrl st tm u =
      ground (arith, handle_all-broker cs (handle on_connection_lost s) u (lost_broker s))
