-- ===== src/Evcc/Client.antt =====
-- internal/evcc/client.go and commands.go: what the MQTT client's callbacks do to the store, and
-- what a publish reports. The MQTT library is a parameter: the token's outcome is an argument.
use wallbox_homeautomation_g.Base.{List, String, [], false, true, ◌∷◌}
use wallbox_homeautomation_g.Base.Int.{ℤ}
use wallbox_homeautomation_g.Evcc.Store.{Store, apply, set_broker_connected}
use wallbox_homeautomation_g.Evcc.Topics.{Topics}
use wallbox_homeautomation_g.Go.Float.{Float}
use wallbox_homeautomation_g.Go.Strconv.{itoa}
use wallbox_homeautomation_g.Go.Time.{Time}

-- How the library settles the token of a publish: not within the timeout, with an error, or well.
pub data Token : Type 0 where
  timed_out failed delivered : Token

pub data Published : Type 0 where
  nil_error timeout_error token_error : Published

pub record Message : Type 0 where
  pub topic : String
  pub payload : String

unfoldable pub publish : (Message → Token) → String → String → Published
publish broker topic payload = elim (broker (record { topic = topic; payload = payload })) [
  | timed_out ↦ timeout_error
  | failed ↦ token_error
  | delivered ↦ nil_error
]

unfoldable pub set_mode : (Message → Token) → Topics → String → Published
set_mode broker t mode = publish broker t.mode_set mode

unfoldable pub set_limit_soc : (Message → Token) → Topics → ℤ → Published
set_limit_soc broker t pct = publish broker t.limit_soc_set (itoa pct)

-- The callbacks, and `Disconnect`.
pub data Callback : Type 0 where
  on_connect on_connection_lost disconnect : Callback
  on_message : String → String → Time → Callback

module _ {ℓ} {W : Type ℓ} ⦃f : Float W⦄ where
  unfoldable pub handle : Callback → Store W → Store W
  handle on_connect s = set_broker_connected true s
  handle on_connection_lost s = set_broker_connected false s
  handle disconnect s = set_broker_connected false s
  handle (on_message topic payload at) s = (apply topic payload at s).0

  -- newest first
  unfoldable pub handle_all : List Callback → Store W → Store W
  handle_all [] s = s
  handle_all (c ∷ cs) s = handle c (handle_all cs s)
