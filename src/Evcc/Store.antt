-- ===== src/Evcc/Store.antt =====
-- internal/evcc/state.go: the latest values, as a record that each message updates. The lock makes
-- every method of the source one step, as the functions here are.
pub mod Frame
use wallbox_homeautomation_g.Base.{Bool, String, false, if◌then◌else◌, none, some, true, ◌==◌}
use wallbox_homeautomation_g.Evcc.Topics.{Topics}
use wallbox_homeautomation_g.Go.Float.{Float, nought}
use wallbox_homeautomation_g.Go.Strings.{trim_space}
use wallbox_homeautomation_g.Go.Time.{Time, zero_time}

pub record FloatMetric {ℓ} (W : Type ℓ) : Type ℓ where
  pub value : W
  pub at : Time
  pub seen : Bool

pub record BoolMetric : Type 0 where
  pub value : Bool
  pub at : Time
  pub seen : Bool

pub record StringMetric : Type 0 where
  pub value : String
  pub at : Time
  pub seen : Bool

pub record Snapshot {ℓ} (W : Type ℓ) : Type ℓ where
  pub grid : FloatMetric W
  pub pv : FloatMetric W
  pub home : FloatMetric W
  pub battery_power : FloatMetric W
  pub battery_soc : FloatMetric W
  pub charge_power : FloatMetric W
  pub vehicle_soc : FloatMetric W
  pub limit_soc : FloatMetric W
  pub charging : BoolMetric
  pub connected : BoolMetric
  pub enabled : BoolMetric
  pub mode : StringMetric
  pub online : BoolMetric
  pub broker_connected : Bool

pub record Store {ℓ} (W : Type ℓ) : Type ℓ where
  pub topics : Topics
  pub snap : Snapshot W

abbrev unseen_bool : BoolMetric
unseen_bool = record { value = false; at = zero_time; seen = false }

unfoldable pub set_bool : BoolMetric → String → Time → BoolMetric × Bool
set_bool field payload at =
    let text = trim_space payload in
    if text == "true"
    then (record { value = true; at = at; seen = true }, true)
    else if text == "false"
    then (record { value = false; at = at; seen = true }, true)
    else (field, false)

module _ {ℓ} {W : Type ℓ} where
  unfoldable pub set_broker_connected : Bool → Store W → Store W
  set_broker_connected v s = record s { snap = record (s.snap) { broker_connected = v } }

module _ {ℓ} {W : Type ℓ} ⦃f : Float W⦄ where
  abbrev unseen_float : FloatMetric W
  unseen_float = record { value = nought; at = zero_time; seen = false }

  -- the zero Snapshot
  abbrev pub empty : Snapshot W
  empty = record {
    grid = unseen_float;
    pv = unseen_float;
    home = unseen_float;
    battery_power = unseen_float;
    battery_soc = unseen_float;
    charge_power = unseen_float;
    vehicle_soc = unseen_float;
    limit_soc = unseen_float;
    charging = unseen_bool;
    connected = unseen_bool;
    enabled = unseen_bool;
    mode = record { value = ""; at = zero_time; seen = false };
    online = unseen_bool;
    broker_connected = false;
  }

  unfoldable pub new_store : Topics → Store W
  new_store t = record { topics = t; snap = empty }

  unfoldable pub set_float : FloatMetric W → String → Time → FloatMetric W × Bool
  set_float field payload at = elim (f.parse_float (trim_space payload)) [
    | none ↦ (field, false)
    | some v ↦ (record { value = v; at = at; seen = true }, true)
  ]

  -- the `switch` of `Apply`
  unfoldable pub apply_to : Topics → String → String → Time → Snapshot W → Snapshot W × Bool
  apply_to t topic payload at s =
      if topic == t.grid_power
      then (let (m, ok) = set_float s.grid payload at in (record s { grid = m }, ok))
      else if topic == t.pv_power
      then (let (m, ok) = set_float s.pv payload at in (record s { pv = m }, ok))
      else if topic == t.home_power
      then (let (m, ok) = set_float s.home payload at in (record s { home = m }, ok))
      else if topic == t.battery_power
      then (let (m, ok) = set_float s.battery_power payload at in
          (record s { battery_power = m }, ok))
      else if topic == t.battery_soc
      then (let (m, ok) = set_float s.battery_soc payload at in (record s { battery_soc = m }, ok))
      else if topic == t.charge_power
      then (let (m, ok) = set_float s.charge_power payload at in
          (record s { charge_power = m }, ok))
      else if topic == t.vehicle_soc
      then (let (m, ok) = set_float s.vehicle_soc payload at in (record s { vehicle_soc = m }, ok))
      else if topic == t.limit_soc
      then (let (m, ok) = set_float s.limit_soc payload at in (record s { limit_soc = m }, ok))
      else if topic == t.charging
      then (let (m, ok) = set_bool s.charging payload at in (record s { charging = m }, ok))
      else if topic == t.connected
      then (let (m, ok) = set_bool s.connected payload at in (record s { connected = m }, ok))
      else if topic == t.enabled
      then (let (m, ok) = set_bool s.enabled payload at in (record s { enabled = m }, ok))
      else if topic == t.mode
      then (record s { mode = record { value = payload; at = at; seen = true } }, true)
      else if topic == t.status
      then (
        record s { online = record { value = payload == "online"; at = at; seen = true } },
        true,
      )
      else (s, false)

  unfoldable pub apply : String → String → Time → Store W → Store W × Bool
  apply topic payload at s =
      let (snap', ok) = apply_to s.topics topic payload at s.snap in (record s { snap = snap' }, ok)
