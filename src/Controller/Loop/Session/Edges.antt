-- ===== src/Controller/Loop/Session/Edges.antt =====
-- The charge sessions of controller.go: when one is open.
use wallbox_homeautomation_g.Base.{arith, false, true, ◌≡◌, ◌⊎◌}
use wallbox_homeautomation_g.Base.Int.{eq_ℤ→≡, pos}
use wallbox_homeautomation_g.Controller.Loop.Session.{
  accumulate, close_session, open_session, session_edge, soc_ptr, start_reason_for, track_session,
}
use wallbox_homeautomation_g.Controller.Loop.Struct.{Controller}
use wallbox_homeautomation_g.Controller.Recorder.{Recorder}
use wallbox_homeautomation_g.Controller.State.{Inputs, State}
use wallbox_homeautomation_g.Go.Float.{Float}
use wallbox_homeautomation_g.Go.Result.{ok}
use wallbox_homeautomation_g.Go.Time.{Time}

module _ {ℓ} {W : Type ℓ} where
  -- No session is open unless evcc was charging at the last tick.
  abbrev pub IsTracked : Controller W → Type 0
  IsTracked c = c.prev_charging ≡ false → c.session_id ≡ pos 0

module _ {ℓ κ} {W : Type ℓ} {D : Type κ} ⦃f : Float W⦄ ⦃r : Recorder W D⦄ where
  pub track_session-IsTracked :
      (now : Time) (inp : Inputs W) (st : State) (c : Controller W) (d : D)
      → IsTracked c
      → IsTracked (track_session now inp st c d).0
  unfolding track_session session_edge open_session close_session accumulate
  track_session-IsTracked now inp st c d h = ground (arith, eq_ℤ→≡ c.session_id (pos 0))

  -- While evcc's charging flag stays as it was at the last tick, no session is opened or closed; on
  -- the falling edge none is left open; on the rising edge the open one has the id that the
  -- database gave for it, or there is none.
  pub session_edge-cases :
      (now : Time) (inp : Inputs W) (st : State) (c : Controller W) (d : D)
      → IsTracked c
      → let (c', d') = session_edge now inp st c d in
        ((inp.is_charging ≡ c.prev_charging) → (c' ≡ c) × (d' ≡ d))
        × (inp.is_charging ≡ false → c'.session_id ≡ pos 0)
        × (inp.is_charging ≡ true
            → c.prev_charging ≡ false
            → (c'.session_id ≡ pos 0)
              ⊎ ((r.start_session now
                    (start_reason_for now inp)
                    (soc_ptr inp.vehicle_soc inp.vehicle_soc_known)
                    d).1
                  ≡ ok c'.session_id))
  unfolding session_edge open_session close_session
  session_edge-cases now inp st c d h = ground (arith, eq_ℤ→≡ c.session_id (pos 0))
